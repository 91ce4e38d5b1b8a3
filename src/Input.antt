-- ===== src/Input.antt =====
-- Controller input, WoSRecomp/kernel/input.cpp. The host's XInput is a parameter: none where it is
-- not loaded, else the function that asks one user's pad. The sticks' `int16_t` are given by their
-- 16-bit patterns, which is what the code stores. The reports are left out.
pub mod Reports
use wosrecomp.Base.{
  ℕ, zero, suc, ◌+◌, Bool, true, false, ◌&&◌, not, if◌then◌else◌, ltb, ◌==◌, Option, none, some,
  u32,
}
use wosrecomp.Guest.{Mem, store_byte, store_u16, store_u32}

abbrev pub error_success : ℕ
error_success = 0

abbrev pub error_device_not_connected : ℕ
error_device_not_connected = 1167

abbrev pub gamepad_size : ℕ
gamepad_size = 12

pub record HostGamepad : Type 0 where
  pub buttons : ℕ
  pub left_trigger : ℕ
  pub right_trigger : ℕ
  pub thumb_lx : ℕ
  pub thumb_ly : ℕ
  pub thumb_rx : ℕ
  pub thumb_ry : ℕ

pub record HostState : Type 0 where
  pub packet_number : ℕ
  pub gamepad : HostGamepad

abbrev pub XInput : Type 0
XInput = Option (ℕ → Option HostState)

unfoldable pub store_gamepad : Mem → ℕ → HostGamepad → Mem
store_gamepad m addr g =
    let m₁ = store_u16 m (addr + 0x00) g.buttons in
    let m₂ = store_byte m₁ (u32 (addr + 0x02)) g.left_trigger in
    let m₃ = store_byte m₂ (u32 (addr + 0x03)) g.right_trigger in
    let m₄ = store_u16 m₃ (addr + 0x04) g.thumb_lx in
    let m₅ = store_u16 m₄ (addr + 0x06) g.thumb_ly in
    let m₆ = store_u16 m₅ (addr + 0x08) g.thumb_rx in store_u16 m₆ (addr + 0x0A) g.thumb_ry

-- `base[addr + i] = 0` for the next `n` values of `i`.
unfoldable pub store_zeros : ℕ → Mem → ℕ → Mem
store_zeros zero m addr = m
store_zeros (suc n) m addr = store_zeros n (store_byte m (u32 addr) 0) (addr + 1)

unfoldable pub store_empty_gamepad : Mem → ℕ → Mem
store_empty_gamepad m addr = store_zeros gamepad_size m addr

unfoldable pub plausible : ℕ → Bool
plausible a = not (ltb a 0x1000) && ltb a 0xC000_0000

unfoldable pub out_param : ℕ → ℕ → ℕ
out_param r4 r5 = if plausible r5 then r5 else if plausible r4 then r4 else 0

-- What the host tells of a user's pad: `XInput()`, the guard on the index, and the call.
unfoldable pub host_state : XInput → ℕ → Option HostState
host_state none user_index = none
host_state (some get_state) user_index = if ltb user_index 4 then get_state user_index else none

-- The rest of `XamInputGetState` from the host's answer on: r3 and guest memory.
unfoldable pub report_state : Mem → ℕ → Option HostState → ℕ × Mem
report_state m out (some s) =
    (error_success, store_gamepad (store_u32 m (out + 0x00) s.packet_number) (out + 0x04) s.gamepad)
report_state m out none =
    (error_device_not_connected, store_empty_gamepad (store_u32 m (out + 0x00) 0) (out + 0x04))

unfoldable pub xam_input_get_state : XInput → Mem → ℕ → ℕ → ℕ → ℕ × Mem
xam_input_get_state xinput m user_index r4 r5 =
    let out = out_param r4 r5 in
    if out == 0
    then (error_device_not_connected, m)
    else report_state m out (host_state xinput user_index)

-- Which controls a pad has: all of them, at full range.
abbrev pub all_controls : HostGamepad
all_controls = record {
  buttons = 0xFFFF;
  left_trigger = 0xFF;
  right_trigger = 0xFF;
  thumb_lx = 0xFFC0;
  thumb_ly = 0xFFC0;
  thumb_rx = 0xFFC0;
  thumb_ry = 0xFFC0;
}

-- The rest of `XamInputGetCapabilities` from the host's answer on.
unfoldable pub report_capabilities : Mem → ℕ → Option HostState → ℕ × Mem
report_capabilities m out none = (error_device_not_connected, store_zeros 20 m out)
report_capabilities m out (some s) =
    let m₁ = store_byte m (u32 (out + 0x00)) 1 in
    let m₂ = store_byte m₁ (u32 (out + 0x01)) 1 in
    let m₃ = store_gamepad (store_u16 m₂ (out + 0x02) 0) (out + 0x04) all_controls in
    (error_success, store_u16 (store_u16 m₃ (out + 0x10) 0xFFFF) (out + 0x12) 0xFFFF)

unfoldable pub xam_input_get_capabilities : XInput → Mem → ℕ → ℕ → ℕ → ℕ × Mem
xam_input_get_capabilities xinput m user_index r4 r5 =
    let out = out_param r4 r5 in
    if out == 0
    then (error_device_not_connected, m)
    else report_capabilities m out (host_state xinput user_index)

-- XamInputSetState: accepted and discarded.
unfoldable pub xam_input_set_state : Mem → ℕ × Mem
xam_input_set_state m = (error_success, m)

-- XamInputGetKeystroke and XamInputGetKeystrokeEx.
unfoldable pub xam_input_get_keystroke : Mem → ℕ × Mem
xam_input_get_keystroke m = (error_device_not_connected, m)
