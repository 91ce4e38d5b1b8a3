-- ===== src/Paths.antt =====
-- Guest paths, WoSRecomp/kernel/file.cpp: `ReadObjectName` and `ResolveGuestPath`. A string is its
-- list of bytes. The game's root directory is a host path: only whether it is known, and what is
-- appended to it, matter here.
pub mod Resolved
pub mod Device
use wosrecomp.Base.{
  ℕ, zero, suc, ◌+◌, ◌*◌, ◌^◌, Bool, true, false, ◌&&◌, ◌||◌, not, if◌then◌else◌, ◌==◌, Option,
  none, some, List, [], ◌∷◌, ◌++◌, drop, map, u32,
}
use wosrecomp.Guest.{Mem, load_u16, load_u32}

abbrev pub backslash : ℕ
backslash = 92

abbrev pub slash : ℕ
slash = 47

abbrev pub colon : ℕ
colon = 58

-- The bytes of "\Device\".
abbrev pub device_prefix : List ℕ
device_prefix = 92 ∷ 68 ∷ 101 ∷ 118 ∷ 105 ∷ 99 ∷ 101 ∷ 92 ∷ []

-- `n` bytes of guest memory.
unfoldable pub bytes_at : Mem → ℕ → ℕ → List ℕ
bytes_at m p zero = []
bytes_at m p (suc n) = m p ∷ bytes_at m (p + 1) n

-- `ReadObjectName`: an OBJECT_ATTRIBUTES points to an ANSI_STRING.
unfoldable pub read_object_name : Mem → ℕ → List ℕ
read_object_name m object_attributes =
    let name_ptr = load_u32 m (object_attributes + 4) in
    let length = load_u16 m name_ptr in
    let buffer = load_u32 m (name_ptr + 4) in
    if object_attributes == 0 || name_ptr == 0 || buffer == 0 || length == 0
    then []
    else bytes_at m buffer length

-- What follows the first byte `c`; none if there is none.
unfoldable pub after : ℕ → List ℕ → Option (List ℕ)
after c [] = none
after c (x ∷ xs) = if x == c then some xs else after c xs

unfoldable pub starts_with : List ℕ → List ℕ → Bool
starts_with [] xs = true
starts_with (p ∷ ps) [] = false
starts_with (p ∷ ps) (x ∷ xs) = p == x && starts_with ps xs

-- The loop over a device path: `n` searches for a backslash, each behind the last one found. None
-- is npos.
unfoldable pub skip_backslashes : ℕ → List ℕ → Option (List ℕ)
skip_backslashes zero xs = some xs
skip_backslashes (suc n) xs = elim (after backslash xs) [
  | none ↦ none
  | some rest ↦ skip_backslashes n rest
]

unfoldable pub or_empty : Option (List ℕ) → List ℕ
or_empty none = []
or_empty (some xs) = xs

-- The part of the path behind the device: the searches start at the second byte.
unfoldable pub strip_device : List ℕ → List ℕ
strip_device path = elim (after colon path) [
  | some rest ↦ rest
  | none ↦
      if starts_with device_prefix path then or_empty (skip_backslashes 4 (drop 1 path)) else path
]

unfoldable pub strip_separators : List ℕ → List ℕ
strip_separators [] = []
strip_separators (x ∷ xs) =
    let rest = strip_separators xs in if x == backslash || x == slash then rest else x ∷ xs

unfoldable pub to_slash : ℕ → ℕ
to_slash x = if x == backslash then slash else x

unfoldable pub non_empty : List ℕ → Option (List ℕ)
non_empty [] = none
non_empty (x ∷ xs) = some (x ∷ xs)

-- `ResolveGuestPath`: what is appended to the root, or none for the empty path.
unfoldable pub resolve_guest_path : Bool → List ℕ → Option (List ℕ)
resolve_guest_path root_known guest_path =
    if root_known
    then non_empty (map to_slash (strip_separators (strip_device guest_path)))
    else none
