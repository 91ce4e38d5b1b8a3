-- ===== src/XexInfo/Pdata/Order.antt =====
-- What the function table holds, and in which order; and the record that covers an address.
use wosrecomp.Base.{
  ℕ, zero, suc, ◌+◌, ◌*◌, ◌/◌, ◌<◌, ◌≡◌, ◌≢◌, ◌↔◌, ◌⊎◌, inl, inr, refl, ap, Bool, true, false, ◌||◌,
  ◌==◌, if◌then◌else◌, List, ◌∷◌, Rising, sort_by-Rising, sort_by-Memᴰ, arith, u32,
}
use mathlib.Core.List.{Memᴰ}
use mathlib.Core.Logic.Iff
use mathlib.Core.Path.{subst, subst⁻¹}
use wosrecomp.XexImage.{big_word}
use wosrecomp.XexInfo.{PdataFunc}
use wosrecomp.XexInfo.Pdata.{read_entries, read_pdata}

-- The record at `q` is a function with this beginning and end.
pub record IsEntry (function_length host : ℕ → ℕ) (q : ℕ) (f : PdataFunc) : Type 0 where
  pub begins : (f.begin ≢ 0) × (f.begin ≡ big_word host q)
  pub long : function_length (big_word host (q + 4)) ≢ 0
  pub ends : f.end ≡ u32 (big_word host q + function_length (big_word host (q + 4)) * 4)

module _ (f g : PdataFunc) (rest : List PdataFunc) where
  from_entry :
      (skip : Bool)
      → Memᴰ f (if skip then rest else g ∷ rest)
      → ((skip ≡ false) × (f ≡ g)) ⊎ Memᴰ f rest
  from_entry true m = inr m
  from_entry false (Memᴰ.head e) = inl (refl, e)
  from_entry false (Memᴰ.tail m) = inr m

  into_entry :
      (skip : Bool)
      → ((skip ≡ false) × (f ≡ g)) ⊎ Memᴰ f rest
      → Memᴰ f (if skip then rest else g ∷ rest)
  into_entry true (inl (e, q)) = ground arith
  into_entry true (inr m) = m
  into_entry false (inl (e, q)) = Memᴰ.head q
  into_entry false (inr m) = Memᴰ.tail m

module _ (function_length host : ℕ → ℕ) (f : PdataFunc) where
  abbrev first : ℕ → PdataFunc
  first p = record {
    begin = big_word host p;
    end = u32 (big_word host p + function_length (big_word host (p + 4)) * 4);
  }

  abbrev skips : ℕ → Bool
  skips p = big_word host p == 0 || function_length (big_word host (p + 4)) == 0

  first_iff : (p : ℕ) → ((skips p ≡ false) × (f ≡ first p)) ↔ IsEntry function_length host p f
  first_iff p = (
    λ (s, e). record {
      begins = (ground (arith, ap (λ (g : PdataFunc). g.begin) e), ap (λ g. g.begin) e);
      long = ground arith;
      ends = ap (λ g. g.end) e;
    },
    λ i. (
      ground (arith, i.begins.0, i.begins.1, i.long),
      λ k. record { begin = i.begins.1 k; end = i.ends k },
    ),
  )

  located :
      (count p i : ℕ)
      → i < suc count
      → IsEntry function_length host (p + 8 * i) f
      → (((i : ℕ) × (i < count) × IsEntry function_length host (p + 8 + 8 * i) f)
          → Memᴰ f (read_entries function_length host count (p + 8)))
      → ((skips p ≡ false) × (f ≡ first p))
        ⊎ Memᴰ f (read_entries function_length host count (p + 8))
  located count p zero l e ih =
      let here : p + 8 * 0 ≡ p = omega arith in
      inl ((first_iff p).1 (subst (λ q. IsEntry function_length host q f) here e))
  located count p (suc i) l e ih =
      let there : p + 8 * suc i ≡ p + 8 + 8 * i = omega arith in
      inr (ih (i, omega (arith, l), subst (λ q. IsEntry function_length host q f) there e))

  entries_iff :
      (count p : ℕ)
      → Memᴰ f (read_entries function_length host count p)
        ↔ ((i : ℕ) × (i < count) × IsEntry function_length host (p + 8 * i) f)
  unfolding read_entries
  entries_iff zero p = (λ m. elim m [ ], λ (i, l, e). absurd (omega (arith, l)))
  entries_iff (suc count) p =
      let rest = read_entries function_length host count (p + 8) in
      let ih = entries_iff count (p + 8) in
      let here : p + 8 * 0 ≡ p = omega arith in
      (
        λ m. elim (from_entry f (first p) rest (skips p) m) [
          | inl new ↦ (
            0,
            omega arith,
            subst⁻¹ (λ q. IsEntry function_length host q f) here ((first_iff p).0 new),
          )
          | inr old ↦
              let (i, l, e) = ih.0 old in
              let there : p + 8 + 8 * i ≡ p + 8 * suc i = omega arith in
              (suc i, omega (arith, l), subst (λ q. IsEntry function_length host q f) there e)
        ],
        λ (i, l, e). into_entry f (first p) rest (skips p) (located count p i l e ih.1),
      )

-- The table that `readPdata` gives is in order of the beginnings, and its functions are exactly the
-- records of the section whose beginning and length are not 0.
pub read_pdata-IsTable :
    (function_length host : ℕ → ℕ) (size p : ℕ)
    → Rising (λ f. f.begin) 0 (read_pdata function_length host size p)
      × ((f : PdataFunc)
          → Memᴰ f (read_pdata function_length host size p)
            ↔ ((i : ℕ) × (i < size / 8) × IsEntry function_length host (p + 8 * i) f))
unfolding read_pdata
read_pdata-IsTable function_length host size p =
    let entries = read_entries function_length host (size / 8) p in
    (
      sort_by-Rising (λ f. f.begin) entries,
      λ f.
          Iff.trans (sort_by-Memᴰ (λ f. f.begin) entries f)
            (entries_iff function_length host f (size / 8) p),
    )
