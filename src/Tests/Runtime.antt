-- ===== src/Tests/Runtime.antt =====
-- Slots and strings.
use wosrecomp.Base.{
  ℕ, zero, suc, ◌+◌, ◌%◌, ◌≡◌, ◌⊎◌, refl, Option, true, false, none, some, ◌==◌, if◌then◌else◌, [],
  ◌∷◌,
}
use wosrecomp.Guest.{Mem, load_u32, store_u32, copy_in, copy_out, store_byte}
use wosrecomp.Guest.Word.{bswap32}
use wosrecomp.Guest.Laws.{SameOutside}
use wosrecomp.Input.{
  XInput, HostState, xam_input_get_state, out_param, plausible, host_state, report_state,
  store_empty_gamepad, store_zeros,
}
use wosrecomp.Input.Reports.{Tells, Has, Takes, IsImplausible, xam_input_get_state-Tells}
use wosrecomp.Tls.{Tls, first_free, ke_tls_alloc, ke_tls_free, ke_tls_get_value}
use wosrecomp.Tls.Slots.{ke_tls_free-keeps_values}

-- The byte at each address is its low byte.
abbrev letters : Mem
letters a = a % 256

-- Slot 0 is in use, slot 1 is not.
abbrev one_used : Tls
one_used = record { slot_used = true ∷ false ∷ []; values = λ thread slot. 7 }

one_used_next : (ke_tls_alloc one_used).0 ≡ 1
unfolding ke_tls_alloc first_free
one_used_next = refl

ke_tls_free-keeps_values_example :
    ke_tls_get_value (ke_tls_alloc (ke_tls_free one_used 1).1).1 3 1 ≡ ke_tls_get_value one_used 3 1
ke_tls_free-keeps_values_example = ke_tls_free-keeps_values one_used 1 3 1

-- One pad, at user 0.
abbrev one_pad : XInput
one_pad = some (λ user.
    if user == 0
    then some record {
      packet_number = 7;
      gamepad = record {
        buttons = 0x1001;
        left_trigger = 255;
        right_trigger = 0;
        thumb_lx = 0x8000;
        thumb_ly = 0x7FFF;
        thumb_rx = 0;
        thumb_ry = 0xFFFF;
      };
    }
    else none)

abbrev polled : ℕ × Mem
polled = xam_input_get_state one_pad letters 0 0 0x2000

xam_input_get_state-Tells_example :
    (IsImplausible 0 × IsImplausible 0x2000 × (polled ≡ (1167, letters)))
    ⊎ ((out : ℕ) × (o : Option HostState) × Takes 0 0x2000 out
        × Has one_pad 0 o
        × SameOutside out 16 letters polled.1
        × Tells o out polled)
xam_input_get_state-Tells_example = xam_input_get_state-Tells one_pad letters 0 0 0x2000

-- The earlier form of the call, with the pointer in r4, and no pad: the packet number reads 0.
polled_without : load_u32 (xam_input_get_state none letters 0 0x2000 1).1 0x2000 ≡ 0
unfolding xam_input_get_state out_param plausible host_state report_state store_empty_gamepad
    store_zeros store_u32 load_u32 copy_in copy_out store_byte bswap32
polled_without = refl

-- The bytes up to the first zero, 16 at most.
unfoldable bytes_before_nul : ℕ → Mem → ℕ → ℕ
bytes_before_nul zero m p = 0
bytes_before_nul (suc n) m p =
    let rest = bytes_before_nul n m (p + 1) in if m p == 0 then 0 else rest + 1

abbrev letters_at : ℕ
letters_at = 0x10FA
