-- ===== src/Strings.antt =====
-- Strings, WoSRecomp/kernel/rtl.cpp: Latin-1 to big-endian UTF-16 and back, and the setting up of
-- an ANSI_STRING. The host's `strlen` is a parameter.
pub mod RoundTrip
pub mod Ansi
use wosrecomp.Base.{
  ℕ, zero, suc, ◌+◌, ◌*◌, ◌/◌, ◌%◌, ◌^◌, Bool, ◌||◌, if◌then◌else◌, ltb, leb, ◌==◌, u32,
}
use wosrecomp.Guest.{
  Mem, store_byte, load_u16, store_u16, store_u32, status_success, status_invalid_parameter,
}

-- The loop of RtlMultiByteToUnicodeN, with `n` characters left from the `i`-th on.
unfoldable pub widen_from : ℕ → Mem → ℕ → ℕ → ℕ → Mem
widen_from zero m dest src i = m
widen_from (suc n) m dest src i =
    widen_from n (store_u16 m (dest + i * 2) (m (src + i))) dest src (i + 1)

unfoldable pub store_count : Mem → ℕ → ℕ → Mem
store_count m written_out count = if written_out == 0 then m else store_u32 m written_out count

-- RtlMultiByteToUnicodeN(r3 = destination, r4 = its bytes, r5 = written out, r6 = source, r7 = its
-- bytes).
unfoldable pub rtl_multi_byte_to_unicode_n : Mem → ℕ → ℕ → ℕ → ℕ → ℕ → ℕ × Mem
rtl_multi_byte_to_unicode_n m dest dest_bytes written_out src src_bytes =
    let max_chars = dest_bytes / 2 in
    let count = if ltb src_bytes max_chars then src_bytes else max_chars in
    if dest == 0 || src == 0
    then (status_invalid_parameter, m)
    else (status_success, store_count (widen_from count m dest src 0) written_out (count * 2))

-- A unit outside Latin-1 becomes '?'.
unfoldable pub to_byte : ℕ → ℕ
to_byte unit = if leb unit 0xFF then unit else 63

-- The loop of RtlUnicodeToMultiByteN.
unfoldable pub narrow_from : ℕ → Mem → ℕ → ℕ → ℕ → Mem
narrow_from zero m dest src i = m
narrow_from (suc n) m dest src i =
    narrow_from n (store_byte m (dest + i) (to_byte (load_u16 m (src + i * 2)))) dest src (i + 1)

-- RtlUnicodeToMultiByteN, with the same arguments.
unfoldable pub rtl_unicode_to_multi_byte_n : Mem → ℕ → ℕ → ℕ → ℕ → ℕ → ℕ × Mem
rtl_unicode_to_multi_byte_n m dest dest_bytes written_out src src_bytes =
    let src_chars = src_bytes / 2 in
    let count = if ltb src_chars dest_bytes then src_chars else dest_bytes in
    if dest == 0 || src == 0
    then (status_invalid_parameter, m)
    else (status_success, store_count (narrow_from count m dest src 0) written_out count)

-- RtlInitAnsiString(r3 = destination, r4 = source); `strlen` tells the length of the text at a
-- guest address.
unfoldable pub rtl_init_ansi_string : (Mem → ℕ → ℕ) → Mem → ℕ → ℕ → Mem
rtl_init_ansi_string strlen m dest src =
    let len = strlen m src in
    let length = (if ltb 0xFFFE len then 0xFFFE else len) % 2 ^ 16 in
    if dest == 0
    then m
    else if src == 0
    then store_u32 (store_u16 (store_u16 m (dest + 0) 0) (dest + 2) 0) (dest + 4) 0
    else store_u32 (store_u16 (store_u16 m (dest + 0) length) (dest + 2) ((length + 1) % 2 ^ 16))
        (dest + 4) src
