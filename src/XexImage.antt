-- ===== src/XexImage.antt =====
-- An image as XenonUtils parses it, which is not part of the repository, with what its users read
-- of it: WoSRecomp/main.cpp and tools/xex_info/main.cpp. Host memory is a function from host
-- addresses to bytes.
pub mod Backed
use wosrecomp.Base.{ℕ, ◌+◌, ◌-◌, Bool, ◌||◌, if◌then◌else◌, ltb, leb, Option, none, some, List}
use wosrecomp.Guest.{copy_out}
use wosrecomp.Guest.Word.{bswap32}

-- `source` is the host address of the section's data, where it has any.
pub record XexSection : Type 0 where
  pub base : ℕ
  pub size : ℕ
  pub is_code : Bool
  pub source : Option ℕ

-- The buffer of the decrypted image, `image.data` and `image.size`, and host memory.
pub record XexImage : Type 0 where
  pub buffer : ℕ
  pub size : ℕ
  pub host : ℕ → ℕ
  pub sections : List XexSection

-- A big-endian word at a host address: `memcpy` of four bytes, and `ByteSwap`.
unfoldable pub big_word : (ℕ → ℕ) → ℕ → ℕ
big_word host p = bswap32 (copy_out 4 host p)

unfoldable pub backed_from : XexImage → ℕ → ℕ → ℕ
backed_from im size p =
    let image_end = im.buffer + im.size in
    let available = image_end - p in
    if ltb p im.buffer || leb image_end p then 0 else if ltb available size then available else size

-- `backedSize`: how many bytes of a section the buffer holds.
unfoldable pub backed_size : XexImage → XexSection → ℕ
backed_size im s = elim s.source [ none ↦ 0 | some p ↦ backed_from im s.size p ]
