-- ===== src/Loader/Table.antt =====
-- What the function table leads to.
use wosrecomp.Base.{
  ℕ, ◌+◌, ◌-◌, ◌*◌, ◌%◌, ◌^◌, ◌≤◌, ◌<◌, ◌≡◌, ◌≢◌, inl, inr, refl, ◌∙◌, true, ◌==◌, if◌then◌else◌,
  Bool-cases, Option, none, some, List, [], ◌∷◌, All, arith,
}
use wosrecomp.Guest.{Mem, copy_in}
use wosrecomp.Guest.Laws.{SameOutside, copy_in-SameOutside}
use wosrecomp.Loader.{Layout, func_table_offset, func_table_size, in_code, slot, populate}

abbrev pub later_or : Option ℕ → Option ℕ → Option ℕ
later_or none earlier = earlier
later_or (some host) earlier = some host

-- The host function that the last mapping of a guest address names.
abbrev pub last_mapping : List (ℕ × ℕ) → ℕ → Option ℕ
last_mapping [] guest = none
last_mapping ((g, host) ∷ mappings) guest =
    later_or (last_mapping mappings guest) (if g == guest then some host else none)

-- Guest functions begin at instructions, and a host function is a pointer that is not null.
abbrev pub IsMapping : ℕ × ℕ → Type 0
IsMapping (g, host) = (g % 4 ≡ 0) × (g < 2 ^ 32) × (host ≢ 0) × (host < 2 ^ 64)

-- The code lies in the 32-bit range, in whole instructions.
pub record IsLayout (y : Layout) : Type 0 where
  pub in_range : y.code_base + y.code_size ≤ 2 ^ 32
  pub base_aligned : y.code_base % 4 ≡ 0
  pub size_aligned : y.code_size % 4 ≡ 0

abbrev held : Option ℕ → ℕ → ℕ
held none old = old
held (some h) old = h

module _ (y : Layout) (v : IsLayout y) where
  slot_lem :
      (g : ℕ)
      → g < 2 ^ 32
      → in_code y g ≡ true
      → (slot y g ≡ func_table_offset y + (g - y.code_base) * 2)
        × (y.code_base ≤ g)
        × (g < y.code_base + y.code_size)
  unfolding slot in_code
  slot_lem g small c = ground (arith, v.in_range)

  one_mapping-SameOutside :
      (g host : ℕ) (m : Mem)
      → g % 4 ≡ 0
      → g < 2 ^ 32
      → SameOutside
          (func_table_offset y)
          (func_table_size y)
          m
          (if in_code y g then copy_in 8 m (slot y g) host else m)
  unfolding func_table_size
  one_mapping-SameOutside g host m four small a h = elim (Bool-cases (in_code y g)) [
    | inl c ↦
        let (place, low, high) = slot_lem g small c in
        rw c (
          copy_in-SameOutside 8 m (slot y g) host a
            (ground (arith, place, low, high, four, v.base_aligned, v.size_aligned)))
    | inr c ↦ rw c refl
  ]

  pub populate-SameOutside :
      (mappings : List (ℕ × ℕ)) (m : Mem)
      → All IsMapping mappings
      → SameOutside (func_table_offset y) (func_table_size y) m (populate y mappings m)
  unfolding populate
  populate-SameOutside [] m ok a h = refl
  populate-SameOutside ((g, host) ∷ mappings) m ok a h =
      populate-SameOutside mappings _ ok.1 a h ∙ one_mapping-SameOutside g host m ok.0.0 ok.0.1 a h
