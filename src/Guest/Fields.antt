-- ===== src/Guest/Fields.antt =====
-- Runs of words written to one structure in guest memory.
use wosrecomp.Base.{ℕ, ◌+◌, ◌%◌, ◌^◌, ◌≤◌, ◌<◌, ◌≡◌, refl, ◌∙◌, ◌⊎◌, inl, List, [], ◌∷◌, All, arith}
use wosrecomp.Guest.{Mem, load_u32, store_u32, store_words}
use wosrecomp.Guest.Laws.{load_u32-store_u32, load_u32-store_u32_apart}

-- Offsets from `lo` to `hi`, in order and four bytes apart.
abbrev pub Spaced : ℕ → ℕ → List (ℕ × ℕ) → Type 0
Spaced lo hi [] = lo ≤ hi
Spaced lo hi ((offset, value) ∷ rest) = (lo ≤ offset) × Spaced (offset + 4) hi rest

pub Spaced-le : (lo hi : ℕ) (fields : List (ℕ × ℕ)) → Spaced lo hi fields → lo ≤ hi
Spaced-le lo hi [] s = s
Spaced-le lo hi ((offset, value) ∷ rest) s = omega (arith, s.0, Spaced-le (offset + 4) hi rest s.1)

-- Each word of the structure at `addr` reads as it was written.
abbrev pub Holds : Mem → ℕ → List (ℕ × ℕ) → Type 0
Holds m addr = All (λ f. load_u32 m (addr + f.0) ≡ f.1 % 2 ^ 32)

module _ (addr hi : ℕ) (fits : addr + hi ≤ 2 ^ 32) where
  -- A word outside the structure keeps its value.
  pub store_words_apart :
      (m : Mem) (lo : ℕ) (fields : List (ℕ × ℕ)) (a : ℕ)
      → Spaced lo hi fields
      → a < 2 ^ 32
      → (a + 4 ≤ addr + lo) ⊎ (addr + hi ≤ a)
      → load_u32 (store_words m addr fields) a ≡ load_u32 m a
  unfolding store_words
  store_words_apart m lo [] a s below h = refl
  store_words_apart m lo ((offset, value) ∷ rest) a s below h =
      let end : offset + 4 ≤ hi = Spaced-le (offset + 4) hi rest s.1 in
      store_words_apart (store_u32 m (addr + offset) value) (offset + 4) rest a s.1 below
        (grind arith)
      ∙ load_u32-store_u32_apart m a (addr + offset) value (grind arith)

  pub store_words-Holds :
      (m : Mem) (lo : ℕ) (fields : List (ℕ × ℕ))
      → Spaced lo hi fields
      → Holds (store_words m addr fields) addr fields
  unfolding store_words
  store_words-Holds m lo [] s = tt
  store_words-Holds m lo ((offset, value) ∷ rest) s =
      let end : offset + 4 ≤ hi = Spaced-le (offset + 4) hi rest s.1 in
      (
        store_words_apart (store_u32 m (addr + offset) value) (offset + 4) rest (addr + offset) s.1
              (omega arith) (inl (omega arith))
            ∙ load_u32-store_u32 m (addr + offset) value,
        store_words-Holds (store_u32 m (addr + offset) value) (offset + 4) rest s.1,
      )
