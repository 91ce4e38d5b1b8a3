-- ===== src/XexInfo/Pdata.antt =====
-- The function table of an image, tools/xex_info/main.cpp: `readPdata`. The data of the `.pdata`
-- section is at a host address; the length field of a record is a bit field of its second word that
-- XenonUtils declares, and a parameter.
pub mod Order
use wosrecomp.Base.{
  ℕ, zero, suc, ◌+◌, ◌*◌, ◌/◌, ◌||◌, if◌then◌else◌, ◌==◌, List, [], ◌∷◌, sort_by, u32,
}
use wosrecomp.XexImage.{big_word}
use wosrecomp.XexInfo.{PdataFunc}

-- The loop over the records, from the one at `p` on.
unfoldable pub read_entries : (ℕ → ℕ) → (ℕ → ℕ) → ℕ → ℕ → List PdataFunc
read_entries function_length host zero p = []
read_entries function_length host (suc count) p =
    let begin_address = big_word host p in
    let length = function_length (big_word host (p + 4)) in
    let rest = read_entries function_length host count (p + 8) in
    if begin_address == 0 || length == 0
    then rest
    else record { begin = begin_address; end = u32 (begin_address + length * 4) } ∷ rest

-- `readPdata`, for a section of `size` bytes.
unfoldable pub read_pdata : (ℕ → ℕ) → (ℕ → ℕ) → ℕ → ℕ → List PdataFunc
read_pdata function_length host size p =
    sort_by (λ f. f.begin) (read_entries function_length host (size / 8) p)
