-- ===== src/XexInfo/Disasm/Turn.antt =====
-- The walk of the first pass of `disasm`: what one turn keeps, and what the walk comes to.
use wosrecomp.Base.{
  ℕ, suc, ◌+◌, ◌*◌, ◌^◌, ◌≤◌, ◌<◌, ◌≡◌, ◌≢◌, ◌↔◌, ◌⊎◌, inl, inr, refl, ap, ◌∙◌, sym, Bool, true,
  false, ◌==◌, leb, max, if◌then◌else◌, Bool-cases, Option, none, some, List, [], ◌∷◌, ◌++◌, arith,
}
use mathlib.Core.List.{Memᴰ}
use mathlib.Core.List.Memᴰ
use mathlib.Core.Path.{subst⁻¹}
use wosrecomp.XexInfo.{is_terminator}
use wosrecomp.XexInfo.Disasm.{Walker, branch_target, stops_walk}

below-suc : (j i : ℕ) → j < suc i → (j < i) ⊎ (j ≡ i)
below-suc j i h = ground arith

module _ (w : Walker) where
  -- Where the word leads, 0 for no branch and for one that links, and whether it is a terminator.
  unfoldable pub leads_from : ℕ → Option ℕ → ℕ
  leads_from a none = 0
  leads_from a (some insn) =
      if w.decoder.image.ppc_bl insn then 0 else branch_target w.decoder a insn

  unfoldable pub ends_on : Option ℕ → Bool
  ends_on none = false
  ends_on (some insn) = is_terminator w.decoder.image insn

  module _ (addr : ℕ) where
    unfoldable pub leads : ℕ → ℕ
    leads j = leads_from (addr + 4 * j) (w.word_at (addr + 4 * j))

    -- No branch up to the `k`-th instruction leads behind it.
    abbrev pub IsClosed : ℕ → Type 0
    IsClosed k = (j : ℕ) → j ≤ k → leads j ≤ addr + 4 * k

    -- The function is taken to end behind the `k`-th instruction.
    abbrev pub EndsAt : ℕ → Type 0
    EndsAt k =
        (w.until_end ≡ true)
        × (((ends_on (w.word_at (addr + 4 * k)) ≡ true) × IsClosed k)
            ⊎ ((w.ceiling ≢ 0) × (w.ceiling ≤ addr + 4 * k + 4)))

    pub record IsWalk (limit : ℕ) (r : ℕ × List ℕ) : Type 0 where
      pub count : ℕ
      pub end_at : r.0 ≡ addr + 4 * count
      pub bounded : count ≤ limit
      pub readable : (j : ℕ) → j < count → w.word_at (addr + 4 * j) ≢ none
      pub first : (j : ℕ) → j + 1 < count → ¬ EndsAt j
      pub reason :
          (count ≡ limit)
          ⊎ ((w.word_at (addr + 4 * count) ≡ none) ⊎ ((k : ℕ) × (count ≡ suc k) × EndsAt k))
      pub targets : (t : ℕ) → Memᴰ t r.1 ↔ ((t ≢ 0) × (j : ℕ) × (j < count) × (leads j ≡ t))

    -- What holds before the `i`-th turn.
    pub record Before (i furthest : ℕ) (labels : List ℕ) : Type 0 where
      pub above : (j : ℕ) → j < i → leads j ≤ furthest
      pub least : (furthest ≡ addr) ⊎ ((j : ℕ) × (j < i) × (leads j ≡ furthest))
      pub read : (j : ℕ) → j < i → w.word_at (addr + 4 * j) ≢ none
      pub open_so_far : (j : ℕ) → j < i → ¬ EndsAt j
      pub seen : (t : ℕ) → Memᴰ t labels ↔ ((t ≢ 0) × (j : ℕ) × (j < i) × (leads j ≡ t))

    -- The list of targets behind one more instruction.
    pub noted :
        (i t : ℕ) (labels : List ℕ) (is_zero : Bool)
        → (t == 0) ≡ is_zero
        → leads i ≡ t
        → ((u : ℕ) → Memᴰ u labels ↔ ((u ≢ 0) × (j : ℕ) × (j < i) × (leads j ≡ u)))
        → (u : ℕ)
        → Memᴰ u (if is_zero then labels else labels ++ t ∷ [])
          ↔ ((u ≢ 0) × (j : ℕ) × (j < suc i) × (leads j ≡ u))
    noted i t labels true z e seen u =
        let none_here : t ≡ 0 = ground arith in
        (
          λ m. let (nz, j, l, q) = (seen u).0 m in (nz, j, omega (arith, l), q),
          λ (nz, j, l, q). elim (below-suc j i l) [
            | inl l' ↦ (seen u).1 (nz, j, l', q)
            | inr same ↦ absurd (nz (sym q ∙ ap leads same ∙ e ∙ none_here))
          ],
        )
    noted i t labels false z e seen u = (
      λ m. elim (Memᴰ.append_cases labels m) [
        | inl here ↦ let (nz, j, l, q) = (seen u).0 here in (nz, j, omega (arith, l), q)
        | inr here ↦
            let same : u ≡ t = Memᴰ.eq_of_singleton here in
            (ground (arith, same), i, omega arith, e ∙ sym same)
      ],
      λ (nz, j, l, q). elim (below-suc j i l) [
        | inl l' ↦ Memᴰ.append_left (t ∷ []) ((seen u).1 (nz, j, l', q))
        | inr same ↦ Memᴰ.append_right labels (Memᴰ.head (sym q ∙ ap leads same ∙ e))
      ],
    )

    IsClosed-iff :
        (i furthest : ℕ) (labels : List ℕ)
        → Before i furthest labels
        → (max furthest (leads i) ≤ addr + 4 * i) ↔ IsClosed i
    IsClosed-iff i furthest labels b = (
      λ h j l. elim (below-suc j i (omega (arith, l))) [
        | inl l' ↦ omega (arith, h, b.above j l')
        | inr same ↦ omega (arith, h, ap leads same)
      ],
      λ h. elim b.least [
        | inl e ↦ omega (arith, e, h i (omega arith))
        | inr (j, l, e) ↦ omega (arith, l, e, h j (omega (arith, l)), h i (omega arith))
      ],
    )

    -- The code's test for the last instruction, with the furthest target so far.
    pub stops_iff :
        (i furthest : ℕ) (labels : List ℕ) (insn : ℕ)
        → Before i furthest labels
        → addr + 4 * i + 4 < 2 ^ 32
        → w.word_at (addr + 4 * i) ≡ some insn
        → (stops_walk w (addr + 4 * i) insn (max furthest (leads i)) ≡ true) ↔ EndsAt i
    unfolding stops_walk ends_on
    stops_iff i furthest labels insn b small e =
        rw e (ground (arith, IsClosed-iff i furthest labels b))

    pub Before-start : Before 0 addr []
    Before-start = record {
      above = λ j l. omega (arith, l);
      least = inl refl;
      read = λ j l. omega (arith, l);
      open_so_far = λ j l. omega (arith, l);
      seen = λ t. (λ m. elim m [ ], λ (nz, j, l, q). absurd (omega (arith, l)));
    }

    least_step :
        (i furthest : ℕ) (labels : List ℕ)
        → Before i furthest labels
        → (max furthest (leads i) ≡ addr)
          ⊎ ((j : ℕ) × (j < suc i) × (leads j ≡ max furthest (leads i)))
    least_step i furthest labels b = elim (Bool-cases (leb (leads i) furthest)) [
      | inl h ↦
          let m : max furthest (leads i) ≡ furthest = ground arith in
          elim b.least [
            | inl e ↦ inl (m ∙ e)
            | inr (j, l, e) ↦ inr (j, omega (arith, l), e ∙ sym m)
          ]
      | inr h ↦ inr (i, omega arith, ground arith)
    ]

    pub read_step :
        (i furthest insn : ℕ) (labels : List ℕ)
        → Before i furthest labels
        → w.word_at (addr + 4 * i) ≡ some insn
        → (j : ℕ) → j < suc i
        → w.word_at (addr + 4 * j) ≢ none
    read_step i furthest insn labels b e j l = elim (below-suc j i l) [
      | inl l' ↦ b.read j l'
      | inr same ↦ λ q. cc
    ]

    pub Before-step :
        (i furthest insn : ℕ) (labels : List ℕ)
        → Before i furthest labels
        → w.word_at (addr + 4 * i) ≡ some insn
        → ¬ EndsAt i
        → Before
            (suc i)
            (max furthest (leads i))
            (if leads i == 0 then labels else labels ++ leads i ∷ [])
    Before-step i furthest insn labels b e not_end = record {
      above = λ j l. elim (below-suc j i l) [
        | inl l' ↦ omega (arith, b.above j l')
        | inr same ↦ omega (arith, ap leads same)
      ];
      least = least_step i furthest labels b;
      read = read_step i furthest insn labels b e;
      open_so_far = λ j l. elim (below-suc j i l) [
        | inl l' ↦ b.open_so_far j l'
        | inr same ↦ subst⁻¹ (λ k. ¬ EndsAt k) same not_end
      ];
      seen = noted i (leads i) labels (leads i == 0) refl refl b.seen;
    }
