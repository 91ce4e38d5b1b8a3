-- ===== src/Guest/Layout.antt =====
-- Structures in guest memory whose fields have different widths: a run of `memcpy`s to ascending
-- addresses, and the loads that read the fields back.
use wosrecomp.Base.{
  ℕ, ◌+◌, ◌%◌, ◌^◌, ◌≤◌, ◌<◌, ◌≡◌, ◌⊎◌, inl, refl, ap, ◌∙◌, List, [], ◌∷◌, All, arith, u32,
}
use native.Mathlib.Nat.{mod-eq_of_lt}
use wosrecomp.Guest.{Mem, copy_out, copy_in, load_u16, load_u32}
use wosrecomp.Guest.Word.{bswap16, bswap32, bswap32-lt, bswap32-bswap32}
use wosrecomp.Guest.Laws.{copy_in-SameOutside, copy_out_same, copy_out-copy_in}

-- A field that was written: its width in bytes, its address, and the host's value for `memcpy`.
pub record Field : Type 0 where
  pub width : ℕ
  pub address : ℕ
  pub raw : ℕ

unfoldable pub write_fields : Mem → List Field → Mem
write_fields m [] = m
write_fields m (f ∷ rest) = write_fields (copy_in f.width m f.address f.raw) rest

-- One behind the other between `lo` and `hi`.
abbrev pub InOrder : ℕ → ℕ → List Field → Type 0
InOrder lo hi [] = lo ≤ hi
InOrder lo hi (f ∷ rest) = (lo ≤ f.address) × InOrder (f.address + f.width) hi rest

InOrder-le : (lo hi : ℕ) (fields : List Field) → InOrder lo hi fields → lo ≤ hi
InOrder-le lo hi [] s = s
InOrder-le lo hi (f ∷ rest) s = omega (arith, s.0, InOrder-le (f.address + f.width) hi rest s.1)

pub write_fields_outside :
    (m : Mem) (lo hi : ℕ) (fields : List Field) (a : ℕ)
    → InOrder lo hi fields
    → (a < lo) ⊎ (hi ≤ a)
    → write_fields m fields a ≡ m a
unfolding write_fields
write_fields_outside m lo hi [] a s h = refl
write_fields_outside m lo hi (f ∷ rest) a s h =
    let end : f.address + f.width ≤ hi = InOrder-le (f.address + f.width) hi rest s.1 in
    write_fields_outside (copy_in f.width m f.address f.raw) (f.address + f.width) hi rest a s.1
      (grind arith)
    ∙ copy_in-SameOutside f.width m f.address f.raw a (grind arith)

pub write_fields_read :
    (m : Mem) (lo hi : ℕ) (fields : List Field)
    → InOrder lo hi fields
    → All (λ f. copy_out f.width (write_fields m fields) f.address ≡ f.raw % 256 ^ f.width) fields
unfolding write_fields
write_fields_read m lo hi [] s = tt
write_fields_read m lo hi (f ∷ rest) s =
    let m₁ = copy_in f.width m f.address f.raw in
    (
      copy_out_same f.width m₁ (write_fields m₁ rest) f.address
            (λ a l u. write_fields_outside m₁ (f.address + f.width) hi rest a s.1 (inl u))
          ∙ copy_out-copy_in f.width m f.address f.raw,
      write_fields_read m₁ (f.address + f.width) hi rest s.1,
    )

-- The loads of a field that stands at `q`.
module _ (m : Mem) (p q v : ℕ) (e : q ≡ u32 p) where
  pub read_byte : p < 2 ^ 32 → copy_out 1 m q ≡ v % 256 ^ 1 → m p ≡ v % 2 ^ 8
  unfolding copy_out
  read_byte below h = let here : p ≡ q = omega (arith, e) in ap m here ∙ omega (arith, h)

  pub read_half : copy_out 2 m q ≡ bswap16 v % 256 ^ 2 → load_u16 m p ≡ v % 2 ^ 16
  unfolding load_u16 bswap16
  read_half h = ap (λ x. bswap16 (copy_out 2 m x)) (rw e refl) ∙ ap bswap16 h ∙ omega arith

  pub read_word : copy_out 4 m q ≡ bswap32 v % 256 ^ 4 → load_u32 m p ≡ v % 2 ^ 32
  unfolding load_u32
  read_word h =
      ap (λ x. bswap32 (copy_out 4 m x)) (rw e refl)
      ∙ ap bswap32 (h ∙ mod-eq_of_lt (bswap32-lt v))
      ∙ bswap32-bswap32 v
