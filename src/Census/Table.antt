-- ===== src/Census/Table.antt =====
-- What a table of sites tells of the calls that were recorded in it: the loop that LogCallSite,
-- RecordWaitSite and RecordAlertable share.
use wosrecomp.Base.{
  ℕ, suc, ◌+◌, ◌%◌, ◌^◌, ◌<◌, ◌≤◌, ◌≡◌, ◌⊎◌, inl, inr, refl, sym, ◌∙◌, Bool, true, false, ◌&&◌,
  ◌||◌, not, if◌then◌else◌, leb, List, [], ◌∷◌, length, arith, Bool-cases,
}
use mathlib.Core.Bool.{true≢false}
use wosrecomp.Census.{record_from, record_all}

-- What the lemmas need of a census: `like` compares calls as `same` compares a call and a row, and
-- a row counts its calls.
pub record Census {C A : Type 0} (same : C → A → Bool) (count : C → A → A) (start : C → A)
    : Type 0 where
  pub like : C → C → Bool
  pub calls : A → ℕ
  pub same_count : (p c : C) (r : A) → same p (count c r) ≡ same p r
  pub same_start : (p c : C) → same p (start c) ≡ like p c
  pub same_like : (p c : C) (r : A) → like p c ≡ true → same p r ≡ same c r
  pub same_both : (p c : C) (r : A) → same p r ≡ true → same c r ≡ true → like p c ≡ true
  pub calls_count : (c : C) (r : A) → calls (count c r) ≡ (calls r + 1) % 2 ^ 64
  pub calls_start : (c : C) → calls (start c) ≡ 1

module _ {C A : Type 0} {same : C → A → Bool} {count : C → A → A} {start : C → A} (full : ℕ → Bool)
    (census : Census same count start) where
  -- How many of the calls are like `p`.
  unfoldable pub calls_like : C → List C → ℕ
  calls_like p [] = 0
  calls_like p (c ∷ cs) = let rest = calls_like p cs in if census.like p c then rest + 1 else rest

  unfoldable pub is_there : C → List A → Bool
  is_there p [] = false
  is_there p (r ∷ rows) = let rest = is_there p rows in if same p r then true else rest

  -- The calls that the row of `p` tells, 0 where it has none.
  unfoldable pub calls_at : C → List A → ℕ
  calls_at p [] = 0
  calls_at p (r ∷ rows) = let rest = calls_at p rows in if same p r then census.calls r else rest

  record_from-there :
      (seen : ℕ) (c p : C) (rows : List A)
      → is_there p (record_from same count start full seen c rows)
        ≡ (is_there p rows || (census.like p c && not (full (seen + length rows))))
  unfolding record_from is_there
  record_from-there seen c p [] =
      let z : seen + 0 ≡ seen = omega arith in
      elim (Bool-cases (full seen)) [
        | inl e ↦ rw (z, e) (ground arith)
        | inr e ↦ rw (z, e, census.same_start p c) (ground arith)
      ]
  record_from-there seen c p (r ∷ rows) =
      let ih = record_from-there (seen + 1) c p rows in
      let z : seen + suc (length rows) ≡ seen + 1 + length rows = omega arith in
      elim (Bool-cases (same c r)) [
        | inl e ↦
            rw (e, census.same_count p c r)
              (elim (Bool-cases (census.like p c)) [
                | inl l ↦ rw (census.same_like p c r l, e) refl
                | inr l ↦ rw l (ground arith)
              ])
        | inr e ↦ rw (e, z, ih) (ground arith)
      ]

  unlike :
      (p c : C) (r : A) (a b : Bool)
      → same c r ≡ a
      → same p r ≡ b
      → ¬ b ≡ a
      → census.like p c ≡ false
  unlike p c r a b e f ne = elim (Bool-cases (census.like p c)) [
    | inl l ↦ absurd (ne (sym f ∙ census.same_like p c r l ∙ e))
    | inr l ↦ l
  ]

  -- What a call adds to the count of the row of `p`.
  adds : C → C → List A → ℕ → ℕ
  adds p c rows size =
      if census.like p c then (if is_there p rows then 1 else if full size then 0 else 1) else 0

  record_from-calls :
      (seen : ℕ) (c p : C) (rows : List A)
      → calls_at p rows + 1 < 2 ^ 64
      → calls_at p (record_from same count start full seen c rows)
        ≡ calls_at p rows + adds p c rows (seen + length rows)
  unfolding record_from calls_at is_there adds
  record_from-calls seen c p [] few =
      let z : seen + 0 ≡ seen = omega arith in
      elim (Bool-cases (full seen)) [
        | inl e ↦ rw (z, e) (ground arith)
        | inr e ↦ rw (z, e, census.same_start p c, census.calls_start c) (ground arith)
      ]
  record_from-calls seen c p (r ∷ rows) few =
      let z : seen + suc (length rows) ≡ seen + 1 + length rows = omega arith in
      elim (Bool-cases (same c r)) [
        | inl e ↦ elim (Bool-cases (same p r)) [
          | inl f ↦
              let l = census.same_both p c r f e in
              rw (e, census.same_count p c r, f, l, census.calls_count c r)
                (omega (arith, rw f at few))
          | inr f ↦
              let l = unlike p c r true false e f (ground arith) in
              rw (e, census.same_count p c r, f, l) (omega arith)
        ]
        | inr e ↦ elim (Bool-cases (same p r)) [
          | inl f ↦ let l = unlike p c r false true e f (ground arith) in rw (e, f, l) (omega arith)
          | inr f ↦ rw (e, f, z) (record_from-calls (seen + 1) c p rows (rw f at few))
        ]
      ]

  pub calls_at-absent : (p : C) (rows : List A) → is_there p rows ≡ false → calls_at p rows ≡ 0
  unfolding is_there calls_at
  calls_at-absent p [] h = refl
  calls_at-absent p (r ∷ rows) h = elim (Bool-cases (same p r)) [
    | inl e ↦ absurd (true≢false (rw e at h))
    | inr e ↦ rw e (calls_at-absent p rows (rw e at h))
  ]

  record_from-full :
      (seen : ℕ) (c : C) (rows : List A)
      → full (seen + length rows) ≡ true
      → length (record_from same count start full seen c rows) ≡ length rows
  unfolding record_from
  record_from-full seen c [] h = let z : seen + 0 ≡ seen = omega arith in rw (rw z at h) refl
  record_from-full seen c (r ∷ rows) h =
      let z : seen + suc (length rows) ≡ seen + 1 + length rows = omega arith in
      let ih = record_from-full (seen + 1) c rows (rw z at h) in
      elim (Bool-cases (same c r)) [ inl e ↦ rw e refl | inr e ↦ rw (e, ih) refl ]

  module _ (c p : C) (rows : List A) where
    recorded : List A
    recorded = record_from same count start full 0 c rows

    none_before : 0 + length rows ≡ length rows
    none_before = omega arith

    recorded-there :
        is_there p recorded ≡ (is_there p rows || (census.like p c && not (full (length rows))))
    unfolding recorded
    recorded-there = rw none_before at (record_from-there 0 c p rows)

    recorded-calls :
        calls_at p rows + 1 < 2 ^ 64
        → calls_at p recorded ≡ calls_at p rows + adds p c rows (length rows)
    unfolding recorded
    recorded-calls few = rw none_before at (record_from-calls 0 c p rows few)

    recorded-full : full (length rows) ≡ true → length recorded ≡ length rows
    unfolding recorded
    recorded-full h = record_from-full 0 c rows (rw none_before h)

    -- A call at a row that is there counts in it, and only a call like it does.
    recorded-counts :
        calls_at p rows + 1 < 2 ^ 64
        → is_there p rows ≡ true
        → calls_at p recorded ≡ calls_at p rows + (if census.like p c then 1 else 0)
    unfolding adds
    recorded-counts few h = rw h at (recorded-calls few)

  record_all-there :
      (cs : List C) (p : C) (rows : List A)
      → calls_at p rows + length cs < 2 ^ 64
      → is_there p rows ≡ true
      → calls_at p (record_all same count start full cs rows) ≡ calls_at p rows + calls_like p cs
  unfolding record_all calls_like recorded
  record_all-there [] p rows few h = omega arith
  record_all-there (c ∷ cs) p rows few h =
      let one = recorded-counts c p rows (omega (arith, few)) h in
      let ih =
        record_all-there cs p (recorded c p rows) (ground (arith, one))
          (rw (recorded-there c p rows, h) refl) in
      ih ∙ rw one (ground arith)

  record_all-absent :
      (cs : List C) (p : C) (rows : List A)
      → is_there p rows ≡ false
      → full (length rows) ≡ true
      → (is_there p (record_all same count start full cs rows) ≡ false)
        × (full (length (record_all same count start full cs rows)) ≡ true)
  unfolding record_all recorded
  record_all-absent [] p rows h all = (h, all)
  record_all-absent (c ∷ cs) p rows h all =
      record_all-absent cs p (recorded c p rows)
        (rw (recorded-there c p rows, h, all) (ground arith)) (rw (recorded-full c p rows all) all)

  -- Each call of a site is counted, or the site is not there and the table is full.
  pub record_all-calls :
      (cs : List C) (p : C) (rows : List A)
      → length cs < 2 ^ 64
      → is_there p rows ≡ false
      → (calls_at p (record_all same count start full cs rows) ≡ calls_like p cs)
        ⊎ ((is_there p (record_all same count start full cs rows) ≡ false)
            × (full (length (record_all same count start full cs rows)) ≡ true))
  unfolding record_all calls_like recorded adds
  record_all-calls [] p rows few h = inl (calls_at-absent p rows h)
  record_all-calls (c ∷ cs) p rows few h =
      let zero_before = calls_at-absent p rows h in
      let calls = recorded-calls c p rows (omega (arith, zero_before)) in
      elim (Bool-cases (full (length rows))) [
        | inl all ↦ inr (record_all-absent (c ∷ cs) p rows h all)
        | inr room ↦ elim (Bool-cases (census.like p c)) [
          | inl l ↦
              let one : calls_at p (recorded c p rows) ≡ 1 =
                calls ∙ rw (zero_before, adds, h, l, room) refl in
              inl (
                record_all-there cs p (recorded c p rows) (omega (arith, one, few))
                  (rw (recorded-there c p rows, h, l, room) refl)
                ∙ rw (one, l) (omega arith))
          | inr l ↦ rw l (
              record_all-calls cs p (recorded c p rows) (omega (arith, few))
                (rw (recorded-there c p rows, h, l) refl))
        ]
      ]

module _ {C A : Type 0} (same : C → A → Bool) (count : C → A → A) (start : C → A) (limit : ℕ) where
  record_from-length :
      (seen : ℕ) (c : C) (rows : List A)
      → seen + length rows ≤ limit
      → seen + length (record_from same count start (leb limit) seen c rows) ≤ limit
  unfolding record_from
  record_from-length seen c [] fits = elim (Bool-cases (leb limit seen)) [
    | inl e ↦ rw e fits
    | inr e ↦ rw e (ground arith)
  ]
  record_from-length seen c (r ∷ rows) fits =
      let ih = record_from-length (seen + 1) c rows (omega (arith, fits)) in
      elim (Bool-cases (same c r)) [ inl e ↦ rw e fits | inr e ↦ rw e (omega (arith, ih)) ]

  -- The table never grows past its limit.
  pub record_all-length :
      (cs : List C) (rows : List A)
      → length rows ≤ limit
      → length (record_all same count start (leb limit) cs rows) ≤ limit
  unfolding record_all
  record_all-length [] rows fits = fits
  record_all-length (c ∷ cs) rows fits =
      let kept = record_from-length 0 c rows (omega (arith, fits)) in
      record_all-length cs _ (omega (arith, kept))
