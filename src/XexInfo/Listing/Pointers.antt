-- ===== src/XexInfo/Listing/Pointers.antt =====
-- The stored pointers that `xrefs` lists: the first 64 of all.
use wosrecomp.Base.{
  ℕ, zero, suc, ◌+◌, ◌/◌, ◌≤◌, ◌<◌, ◌≡◌, inl, inr, refl, ap, ◌∙◌, sym, Bool, true, false, ◌==◌, leb,
  if◌then◌else◌, Bool-cases, Option, none, some, List, [], ◌∷◌, ◌++◌, length, length-append,
  length-take, take, arith, u32,
}
use mathlib.Core.List.{append-nil, append_assoc}
use wosrecomp.XexImage.{XexSection, XexImage, big_word, backed_size}
use wosrecomp.XexInfo.Listing.{
  points_to, word_sites, section_sites, sites, scan_pointers, section_pointers, stored_pointers,
}

take_all : (n : ℕ) (xs : List ℕ) → length xs ≤ n → take n xs ≡ xs
take_all zero [] h = refl
take_all zero (x ∷ xs) h = ground arith
take_all (suc n) [] h = refl
take_all (suc n) (x ∷ xs) h = ap (λ l. x ∷ l) (take_all n xs (omega (arith, h)))

take-append_long : (n : ℕ) (xs ys : List ℕ) → n ≤ length xs → take n (xs ++ ys) ≡ take n xs
take-append_long zero xs ys h = refl
take-append_long (suc n) [] ys h = ground arith
take-append_long (suc n) (x ∷ xs) ys h =
    ap (λ l. x ∷ l) (take-append_long n xs ys (omega (arith, h)))

take-append_full : (n : ℕ) (xs ys : List ℕ) → length xs ≡ n → take n (xs ++ ys) ≡ xs
take-append_full n xs ys h =
    take-append_long n xs ys (omega (arith, h)) ∙ take_all n xs (omega (arith, h))

nothing_more : (xs : List ℕ) → length xs < 64 → xs ≡ take 64 (xs ++ [])
nothing_more xs few = sym (ap (take 64) (append-nil xs) ∙ take_all 64 xs (omega (arith, few)))

-- One turn: `fit` for a word inside the section, `hit` for the pointer, `full` for the 64th.
pointer_turn :
    (found : List ℕ) (site : ℕ) (rest without with_it : List ℕ) (fit hit full : Bool)
    → leb 64 (length (found ++ site ∷ [])) ≡ full
    → length found < 64
    → without ≡ take 64 (found ++ rest)
    → (length (found ++ site ∷ []) < 64 → with_it ≡ take 64 ((found ++ site ∷ []) ++ rest))
    → (if fit
        then elim hit [
          | false ↦ without
          | true ↦ elim full [ true ↦ found ++ site ∷ [] | false ↦ with_it ]
        ]
        else found)
      ≡ take 64 (found ++ (if fit then (if hit then site ∷ rest else rest) else []))
pointer_turn found site rest without with_it false hit full f few p q = nothing_more found few
pointer_turn found site rest without with_it true false full f few p q = p
pointer_turn found site rest without with_it true true true f few p q =
    let more = length-append found (site ∷ []) in
    sym (
      ap (take 64) (sym (append_assoc found (site ∷ []) rest))
      ∙ take-append_full 64 (found ++ site ∷ []) rest (ground (arith, more)))
pointer_turn found site rest without with_it true true false f few p q =
    q (ground arith) ∙ ap (take 64) (append_assoc found (site ∷ []) rest)

module _ (addr : ℕ) (host : ℕ → ℕ) (base p limit : ℕ) where
  abbrev all_sites : ℕ → ℕ → List ℕ
  all_sites fuel off = word_sites fuel (points_to addr) host base p limit off

  scan_pointers-take :
      (fuel off : ℕ) (found : List ℕ)
      → length found < 64
      → scan_pointers fuel addr host base p limit off found ≡ take 64 (found ++ all_sites fuel off)
  unfolding scan_pointers word_sites points_to
  scan_pointers-take zero off found few = nothing_more found few
  scan_pointers-take (suc fuel) off found few =
      let found' = found ++ u32 (base + off) ∷ [] in
      pointer_turn found (u32 (base + off)) (all_sites fuel (u32 (off + 4)))
        (scan_pointers fuel addr host base p limit (u32 (off + 4)) found)
        (scan_pointers fuel addr host base p limit (u32 (off + 4)) found')
        (leb (u32 (off + 4)) limit) (big_word host (p + off) == addr) (leb 64 (length found')) refl
        few (scan_pointers-take fuel (u32 (off + 4)) found few)
        (λ fewer. scan_pointers-take fuel (u32 (off + 4)) found' fewer)

module _ (im : XexImage) (addr : ℕ) where
  section_pointers-take :
      (s : XexSection) (o : Option ℕ) (found : List ℕ)
      → length found < 64
      → section_pointers im addr s o found
        ≡ take 64 (found ++ section_sites (points_to addr) false im s o)
  unfolding section_pointers section_sites
  section_pointers-take s none found few = nothing_more found few
  section_pointers-take s (some p) found few =
      scan_pointers-take addr im.host s.base p (backed_size im s) (backed_size im s / 4 + 1) 0 found
        few

  -- `stored_pointers` behind fewer than 64 pointers found: those found and the pointers of the
  -- sections that are left, cut to 64.
  pub stored_pointers-take :
      (sections : List XexSection) (found : List ℕ)
      → length found < 64
      → stored_pointers im addr sections found
        ≡ take 64 (found ++ sites (points_to addr) false im sections)
  unfolding stored_pointers sites
  stored_pointers-take [] found few = nothing_more found few
  stored_pointers-take (s ∷ sections) found few =
      let here = section_sites (points_to addr) false im s s.source in
      let rest = sites (points_to addr) false im sections in
      let found' = section_pointers im addr s s.source found in
      let e : found' ≡ take 64 (found ++ here) = section_pointers-take s s.source found few in
      let all : found ++ (here ++ rest) ≡ (found ++ here) ++ rest =
        sym (append_assoc found here rest) in
      let count = ap length e ∙ length-take 64 (found ++ here) in
      elim (Bool-cases (leb 64 (length found'))) [
        | inl full ↦
            rw (full, all)
              (e ∙ sym (take-append_long 64 (found ++ here) rest (ground (arith, count))))
        | inr more ↦
            let same : found' ≡ found ++ here =
              e ∙ take_all 64 (found ++ here) (ground (arith, count)) in
            rw (more, all)
              (stored_pointers-take sections found' (ground arith)
                ∙ ap (λ l. take 64 (l ++ rest)) same)
      ]
