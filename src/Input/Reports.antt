-- ===== src/Input/Reports.antt =====
-- What the game learns of a pad from the controller imports.
use wosrecomp.Base.{
  ℕ, zero, suc, ◌+◌, ◌%◌, ◌^◌, ◌≤◌, ◌<◌, ◌≡◌, ◌⊎◌, inl, inr, refl, ◌∙◌, Option, none, some, List,
  [], ◌∷◌, arith, u32,
}
use mathlib.Core.Path.{subst⁻¹}
use wosrecomp.Guest.{Mem, store_byte, copy_in, load_u16, store_u16, load_u32, store_u32}
use wosrecomp.Guest.Word.{bswap16, bswap32}
use wosrecomp.Guest.Laws.{SameOutside, copy_in-SameOutside}
use wosrecomp.Guest.Layout.{
  Field, write_fields, InOrder, write_fields_outside, write_fields_read, read_byte, read_half,
  read_word,
}
use wosrecomp.Input.{
  HostState, XInput, error_success, error_device_not_connected, store_gamepad, store_zeros,
  store_empty_gamepad, plausible, out_param, host_state, report_state, xam_input_get_state,
  report_capabilities, xam_input_get_capabilities,
}

-- The fields of the structure at `addr` read as the host gave them, each cut to its width.
pub record Shows (m : Mem) (addr : ℕ) (s : HostState) : Type 0 where
  packet_number : load_u32 m addr ≡ s.packet_number % 2 ^ 32
  buttons : load_u16 m (addr + 0x04) ≡ s.gamepad.buttons % 2 ^ 16
  left_trigger : m (addr + 0x06) ≡ s.gamepad.left_trigger % 2 ^ 8
  right_trigger : m (addr + 0x07) ≡ s.gamepad.right_trigger % 2 ^ 8
  thumb_lx : load_u16 m (addr + 0x08) ≡ s.gamepad.thumb_lx % 2 ^ 16
  thumb_ly : load_u16 m (addr + 0x0A) ≡ s.gamepad.thumb_ly % 2 ^ 16
  thumb_rx : load_u16 m (addr + 0x0C) ≡ s.gamepad.thumb_rx % 2 ^ 16
  thumb_ry : load_u16 m (addr + 0x0E) ≡ s.gamepad.thumb_ry % 2 ^ 16

-- An address that a pointer of the game may have.
abbrev pub IsPlausible : ℕ → Type 0
IsPlausible a = (0x1000 ≤ a) × (a < 0xC000_0000)

abbrev pub IsImplausible : ℕ → Type 0
IsImplausible a = (a < 0x1000) ⊎ (0xC000_0000 ≤ a)

-- The pointer that an import takes: r5 if it is plausible, else r4 if that is.
abbrev pub Takes : ℕ → ℕ → ℕ → Type 0
Takes r4 r5 out = (IsPlausible r5 × (out ≡ r5)) ⊎ (IsImplausible r5 × IsPlausible r4 × (out ≡ r4))

out_param-cases :
    (r4 r5 : ℕ)
    → ((out_param r4 r5 ≡ 0) × IsImplausible r4 × IsImplausible r5)
      ⊎ (IsPlausible (out_param r4 r5) × Takes r4 r5 (out_param r4 r5))
unfolding out_param plausible
out_param-cases r4 r5 = ground arith

-- What the host has for a user: nothing where XInput is not loaded, or for a user from the fifth
-- on.
abbrev pub Has : XInput → ℕ → Option HostState → Type 0
Has none user o = o ≡ none
Has (some get_state) user o = ((user < 4) × (o ≡ get_state user)) ⊎ ((4 ≤ user) × (o ≡ none))

host_state-Has : (xinput : XInput) (user : ℕ) → Has xinput user (host_state xinput user)
unfolding host_state
host_state-Has none user = refl
host_state-Has (some get_state) user = ground arith

-- The writes of `XamInputGetState` for a pad that is connected.
fields : ℕ → HostState → List Field
fields out s =
    let g = s.gamepad in
    record { width = 4; address = u32 (out + 0); raw = bswap32 s.packet_number }
    ∷ record { width = 2; address = u32 (out + 4 + 0); raw = bswap16 g.buttons }
    ∷ record { width = 1; address = u32 (out + 4 + 2); raw = g.left_trigger }
    ∷ record { width = 1; address = u32 (out + 4 + 3); raw = g.right_trigger }
    ∷ record { width = 2; address = u32 (out + 4 + 4); raw = bswap16 g.thumb_lx }
    ∷ record { width = 2; address = u32 (out + 4 + 6); raw = bswap16 g.thumb_ly }
    ∷ record { width = 2; address = u32 (out + 4 + 8); raw = bswap16 g.thumb_rx }
    ∷ record { width = 2; address = u32 (out + 4 + 10); raw = bswap16 g.thumb_ry }
    ∷ []

module _ (m : Mem) (out : ℕ) (s : HostState) (below : out < 0xC000_0000) where
  report-fields : report_state m out (some s) ≡ (error_success, write_fields m (fields out s))
  unfolding report_state store_gamepad store_u32 store_u16 fields write_fields copy_in
  report-fields = refl

  fields-InOrder : InOrder out (out + 16) (fields out s)
  unfolding fields
  fields-InOrder = ground arith

  fields-Shows : Shows (write_fields m (fields out s)) out s
  unfolding fields
  fields-Shows =
      let g = s.gamepad in
      let m' = write_fields m (fields out s) in
      let all = write_fields_read m out (out + 16) (fields out s) fields-InOrder in
      record {
        packet_number = read_word m' out _ s.packet_number (omega arith) all.0;
        buttons = read_half m' (out + 0x04) _ g.buttons (omega arith) all.1.0;
        left_trigger =
            read_byte m' (out + 0x06) _ g.left_trigger (omega arith) (omega arith) all.1.1.0;
        right_trigger =
            read_byte m' (out + 0x07) _ g.right_trigger (omega arith) (omega arith) all.1.1.1.0;
        thumb_lx = read_half m' (out + 0x08) _ g.thumb_lx (omega arith) all.1.1.1.1.0;
        thumb_ly = read_half m' (out + 0x0A) _ g.thumb_ly (omega arith) all.1.1.1.1.1.0;
        thumb_rx = read_half m' (out + 0x0C) _ g.thumb_rx (omega arith) all.1.1.1.1.1.1.0;
        thumb_ry = read_half m' (out + 0x0E) _ g.thumb_ry (omega arith) all.1.1.1.1.1.1.1.0;
      }

store_zeros_outside :
    (n : ℕ) (m : Mem) (addr : ℕ) → addr + n ≤ 2 ^ 32 → SameOutside addr n m (store_zeros n m addr)
unfolding store_zeros store_byte
store_zeros_outside zero m addr below a h = refl
store_zeros_outside (suc n) m addr below a h =
    ground (arith, store_zeros_outside n (store_byte m (u32 addr) 0) (addr + 1) (omega arith) a)

store_zeros_inside :
    (n : ℕ) (m : Mem) (addr a : ℕ)
    → addr + n ≤ 2 ^ 32
    → addr ≤ a
    → a < addr + n
    → store_zeros n m addr a ≡ 0
unfolding store_zeros store_byte
store_zeros_inside zero m addr a below l u = ground arith
store_zeros_inside (suc n) m addr a below l u =
    let m₁ = store_byte m (u32 addr) 0 in
    ground (
      arith,
      store_zeros_inside n m₁ (addr + 1) a (omega arith),
      store_zeros_outside n m₁ (addr + 1) (omega arith) a,
    )

zero_word : (m : Mem) (p a : ℕ) → p ≤ a → a < p + 4 → copy_in 4 m p (bswap32 0) a ≡ 0
unfolding copy_in store_byte bswap32
zero_word m p a l u = ground arith

-- What the answer to XamInputGetState tells of what the host told.
abbrev pub Tells : Option HostState → ℕ → ℕ × Mem → Type 0
Tells (some s) out r = (r.0 ≡ error_success) × Shows r.1 out s
Tells none out r = (r.0 ≡ error_device_not_connected) × ((i : ℕ) → i < 16 → r.1 (out + i) ≡ 0)

empty_state-Tells :
    (m : Mem) (out : ℕ)
    → out < 0xC000_0000
    → SameOutside out 16 m (report_state m out none).1 × Tells none out (report_state m out none)
unfolding report_state store_empty_gamepad store_u32
empty_state-Tells m out below =
    let m₁ = copy_in 4 m (u32 (out + 0)) (bswap32 0) in
    let apart : (a : ℕ) → (a < out + 4) ⊎ (out + 16 ≤ a) → store_zeros 12 m₁ (out + 4) a ≡ m₁ a =
      λ a h. store_zeros_outside 12 m₁ (out + 4) (omega arith) a (grind arith) in
    (
      λ a h.
          apart a (grind arith)
          ∙ copy_in-SameOutside 4 m (u32 (out + 0)) (bswap32 0) a (grind arith),
      (
        refl,
        λ i u. ground (
          arith,
          store_zeros_inside 12 m₁ (out + 4) (out + i) (omega arith),
          apart (out + i),
          zero_word m (u32 (out + 0)) (out + i),
        ),
      ),
    )

report_state-Tells :
    (m : Mem) (out : ℕ) (o : Option HostState)
    → out < 0xC000_0000
    → SameOutside out 16 m (report_state m out o).1 × Tells o out (report_state m out o)
report_state-Tells m out (some s) below = rw (report-fields m out s below) (
  λ a h. write_fields_outside m out (out + 16) (fields out s) a (fields-InOrder m out s below) h,
  (refl, fields-Shows m out s below),
)
report_state-Tells m out none below = empty_state-Tells m out below

-- XamInputGetState, whatever the host and the arguments are. A pointer is plausible from 0x1000 up
-- to but not including 0xC0000000. With no plausible pointer in r4 or r5 it touches nothing and
-- reports no pad. Otherwise it takes r5 if that is plausible, else r4, and writes nothing outside
-- the 16 bytes there: where XInput is loaded, the user is below 4 and XInput has a state for them,
-- the game gets success and reads every field as the host gave it, cut to its width; else the game
-- is told that there is no pad and reads 16 zero bytes.
pub xam_input_get_state-Tells :
    (xinput : XInput) (m : Mem) (user_index r4 r5 : ℕ)
    → let r = xam_input_get_state xinput m user_index r4 r5 in
      (IsImplausible r4 × IsImplausible r5 × (r ≡ (error_device_not_connected, m)))
      ⊎ ((out : ℕ) × (o : Option HostState) × Takes r4 r5 out
          × Has xinput user_index o
          × SameOutside out 16 m r.1
          × Tells o out r)
unfolding xam_input_get_state
xam_input_get_state-Tells xinput m user_index r4 r5 =
    let out = out_param r4 r5 in
    let o = host_state xinput user_index in
    elim (out_param-cases r4 r5) [
      | inl (z, bad4, bad5) ↦ inl (bad4, bad5, grind arith)
      | inr ((low, below), takes) ↦
          let e : xam_input_get_state xinput m user_index r4 r5 ≡ report_state m out o =
            grind arith in
          let told = report_state-Tells m out o below in
          let moved = subst⁻¹ (λ r. SameOutside out 16 m r.1 × Tells o out r) e told in
          inr (out, o, takes, host_state-Has xinput user_index, moved.0, moved.1)
    ]

reports_agree :
    (m : Mem) (out : ℕ) (o : Option HostState)
    → (report_capabilities m out o).0 ≡ (report_state m out o).0
unfolding report_capabilities report_state
reports_agree m out (some s) = refl
reports_agree m out none = refl

-- A pad has capabilities exactly when it has a state: XamInputGetCapabilities returns what
-- XamInputGetState returns for the same registers.
pub capabilities_agree :
    (xinput : XInput) (m : Mem) (user_index r4 r5 : ℕ)
    → (xam_input_get_capabilities xinput m user_index r4 r5).0
      ≡ (xam_input_get_state xinput m user_index r4 r5).0
unfolding xam_input_get_capabilities xam_input_get_state
capabilities_agree xinput m user_index r4 r5 =
    grind (arith, reports_agree m (out_param r4 r5) (host_state xinput user_index))
