-- ===== src/Guest.antt =====
-- Guest memory, WoSRecomp/kernel/guest.h: the loads and stores that every import goes through, the
-- status codes, and the registers in which an import finds its arguments.
-- A guest address x lives at host address base + x; `Mem` gives the byte at each offset from base.
-- The host is little-endian, as the code's use of a byte swap presumes.
pub mod Word
pub mod Laws
pub mod Fields
pub mod Layout
use wosrecomp.Base.{
  ℕ, zero, suc, ◌+◌, ◌*◌, ◌/◌, ◌%◌, ◌^◌, List, [], ◌∷◌, ◌==◌, if◌then◌else◌, u32, u64,
}
use Word.{bswap16, bswap32, bswap64}

abbrev pub Mem : Type 0
Mem = ℕ → ℕ

unfoldable pub store_byte : Mem → ℕ → ℕ → Mem
store_byte m p v a = if a == p then v % 256 else m a

-- `memcpy` between guest memory and a host integer of `n` bytes, lowest byte first.
unfoldable pub copy_out : ℕ → Mem → ℕ → ℕ
copy_out zero m p = 0
copy_out (suc n) m p = m p + 256 * copy_out n m (p + 1)

unfoldable pub copy_in : ℕ → Mem → ℕ → ℕ → Mem
copy_in zero m p v = m
copy_in (suc n) m p v = copy_in n (store_byte m p v) (p + 1) (v / 256)

-- The address parameters are `uint32_t`; the sum with `base` is a 64-bit host address.
unfoldable pub load_u16 : Mem → ℕ → ℕ
load_u16 m addr = bswap16 (copy_out 2 m (u32 addr))

unfoldable pub store_u16 : Mem → ℕ → ℕ → Mem
store_u16 m addr value = copy_in 2 m (u32 addr) (bswap16 value)

unfoldable pub load_u32 : Mem → ℕ → ℕ
load_u32 m addr = bswap32 (copy_out 4 m (u32 addr))

unfoldable pub store_u32 : Mem → ℕ → ℕ → Mem
store_u32 m addr value = copy_in 4 m (u32 addr) (bswap32 value)

unfoldable pub load_u64 : Mem → ℕ → ℕ
load_u64 m addr = bswap64 (copy_out 8 m (u32 addr))

unfoldable pub store_u64 : Mem → ℕ → ℕ → Mem
store_u64 m addr value = copy_in 8 m (u32 addr) (bswap64 value)

-- The NTSTATUS values.
abbrev pub status_success : ℕ
status_success = 0x0000_0000

abbrev pub status_timeout : ℕ
status_timeout = 0x0000_0102

abbrev pub status_pending : ℕ
status_pending = 0x0000_0103

abbrev pub status_user_apc : ℕ
status_user_apc = 0x0000_00C0

abbrev pub status_no_memory : ℕ
status_no_memory = 0xC000_0017

abbrev pub status_invalid_parameter : ℕ
status_invalid_parameter = 0xC000_000D

abbrev pub status_invalid_handle : ℕ
status_invalid_handle = 0xC000_0008

abbrev pub status_no_such_file : ℕ
status_no_such_file = 0xC000_000F

abbrev pub status_object_path_not_found : ℕ
status_object_path_not_found = 0xC000_003A

-- A run of `StoreU32(base, addr + offset, value)`, in order.
unfoldable pub store_words : Mem → ℕ → List (ℕ × ℕ) → Mem
store_words m addr [] = m
store_words m addr ((offset, value) ∷ rest) =
    store_words (store_u32 m (addr + offset) value) addr rest
