-- ===== src/Census/Busiest.antt =====
-- What the heartbeat prints of the calls between two snapshots of the import log.
use wosrecomp.Base.{
  ℕ, ◌+◌, ◌-◌, ◌^◌, ◌<◌, ◌≤◌, ◌≡◌, ◌↔◌, refl, ◌∙◌, ap, ltb, ◌==◌, if◌then◌else◌, Bool-cases, inl,
  inr, List, [], ◌∷◌, ◌++◌, length, length-append, take, sort_by, sort_by-length, sort_by-Rising,
  sort_by-Memᴰ, Rising, arith, true, false,
}
use mathlib.Core.List.{Memᴰ}
use wosrecomp.Census.{empty_log, log_import_calls, snapshot_import_counts, total_delta, heartbeat}
use wosrecomp.Census.Imports.{first_calls, calls_of}
use wosrecomp.Census.Heartbeat.{called, calls_of-append, calls_of-without, deltas-Tells}

-- In falling order of the counts, from `most` on.
abbrev pub Falling : ℕ → List (ℕ × ℕ) → Type 0
Falling most [] = Unit
Falling most (e ∷ rows) = (e.1 ≤ most) × Falling e.1 rows

Rising-Falling :
    (lo : ℕ) (rows : List (ℕ × ℕ))
    → lo ≤ 2 ^ 64
    → ((e : ℕ × ℕ) → Memᴰ e rows → e.1 < 2 ^ 64)
    → Rising (λ e. 2 ^ 64 - e.1) lo rows
    → Falling (2 ^ 64 - lo) rows
Rising-Falling lo [] l small r = tt
Rising-Falling lo (e ∷ rows) l small r =
    let here = small e (Memᴰ.head refl) in
    let twice : 2 ^ 64 - (2 ^ 64 - e.1) ≡ e.1 = omega (arith, here) in
    let rest =
      Rising-Falling (2 ^ 64 - e.1) rows (omega arith) (λ e' m. small e' (Memᴰ.tail m)) r.1 in
    (omega (arith, r.0, here, l), rw twice at rest)

calls_of-le : (n : ℕ) (xs : List ℕ) → calls_of n xs ≤ length xs
unfolding calls_of
calls_of-le n [] = omega arith
calls_of-le n (x ∷ xs) = ground (arith, calls_of-le n xs)

calls_of-member : (n : ℕ) (xs : List ℕ) → Memᴰ n xs → 0 < calls_of n xs
unfolding calls_of
calls_of-member n [] m = elim m [ ]
calls_of-member n (x ∷ xs) (Memᴰ.head e) = ground (arith, e)
calls_of-member n (x ∷ xs) (Memᴰ.tail m) = ground (arith, calls_of-member n xs m)

called-count : (run names : List ℕ) (e : ℕ × ℕ) → Memᴰ e (called run names) → e.1 ≡ calls_of e.0 run
unfolding called
called-count run [] e m = elim m [ ]
called-count run (n ∷ names) e m = elim (Bool-cases (ltb 0 (calls_of n run))) [
  | inl some_calls ↦ elim (rw some_calls at m) [
    | Memᴰ.head same ↦ rw same refl
    | Memᴰ.tail m' ↦ called-count run names e m'
  ]
  | inr no_calls ↦ called-count run names e (rw no_calls at m)
]

-- An import that was called stands once among the first calls.
calls_of-first_calls_once :
    (j : ℕ) (ns : List ℕ) → calls_of j (first_calls ns) ≡ (if ltb 0 (calls_of j ns) then 1 else 0)
unfolding calls_of first_calls
calls_of-first_calls_once j [] = refl
calls_of-first_calls_once j (n ∷ ns) =
    let ih = calls_of-first_calls_once j ns in
    let w = calls_of-without j n (first_calls ns) in
    elim (Bool-cases (j == n)) [
      | inl e ↦ let same : (n == j) ≡ true = ground arith in rw (e, w, same) (ground arith)
      | inr e ↦ let differ : (n == j) ≡ false = ground arith in rw (e, w, differ) ih
    ]

sum_calls : List ℕ → List ℕ → ℕ
sum_calls run [] = 0
sum_calls run (n ∷ names) = calls_of n run + sum_calls run names

sum_calls-nil : (names : List ℕ) → sum_calls [] names ≡ 0
unfolding sum_calls calls_of
sum_calls-nil [] = refl
sum_calls-nil (n ∷ names) = omega (arith, sum_calls-nil names)

sum_calls-cons :
    (x : ℕ) (run names : List ℕ)
    → sum_calls (x ∷ run) names ≡ sum_calls run names + calls_of x names
unfolding sum_calls calls_of
sum_calls-cons x run [] = omega arith
sum_calls-cons x run (n ∷ names) =
    let ih = sum_calls-cons x run names in
    elim (Bool-cases (n == x)) [
      | inl e ↦ let back : (x == n) ≡ true = ground arith in rw (e, back) (omega (arith, ih))
      | inr e ↦ let back : (x == n) ≡ false = ground arith in rw (e, back) (omega (arith, ih))
    ]

sum_calls-length :
    (run names : List ℕ)
    → ((x : ℕ) → Memᴰ x run → calls_of x names ≡ 1)
    → sum_calls run names ≡ length run
sum_calls-length [] names once = sum_calls-nil names
sum_calls-length (x ∷ run) names once =
    let ih = sum_calls-length run names (λ y m. once y (Memᴰ.tail m)) in
    sum_calls-cons x run names ∙ omega (arith, ih, once x (Memᴰ.head refl))

total_delta-called :
    (run names : List ℕ)
    → sum_calls run names < 2 ^ 64
    → total_delta (called run names) ≡ sum_calls run names
unfolding total_delta called sum_calls
total_delta-called run [] small = refl
total_delta-called run (n ∷ names) small =
    let ih = total_delta-called run names (omega (arith, small)) in
    elim (Bool-cases (ltb 0 (calls_of n run))) [
      | inl e ↦ rw (e, ih) (omega (arith, small))
      | inr e ↦ let zero : calls_of n run ≡ 0 = ground arith in rw (e, ih, zero) (omega arith)
    ]

-- In fewer than 2 ^ 64 calls of imports, what the heartbeat makes of two snapshots of the log that
-- was empty before: the number of calls in between, the number of imports that were called in
-- between, and of these the first four in falling order of their calls in between, each with their
-- number.
pub heartbeat-Tells :
    (earlier later : List ℕ)
    → length (earlier ++ later) < 2 ^ 64
    → let before = log_import_calls earlier empty_log in
      let found = called later (first_calls (earlier ++ later)) in
      let h =
        heartbeat
          (snapshot_import_counts before)
          (snapshot_import_counts (log_import_calls later before)) in
      (h.calls ≡ length later)
      × (h.imports ≡ length found)
      × (rows : List (ℕ × ℕ)) × Falling (2 ^ 64) rows
      × (length rows ≡ length found)
      × ((e : ℕ × ℕ) → Memᴰ e rows ↔ Memᴰ e found)
      × (h.busiest ≡ take 4 rows)
unfolding heartbeat
heartbeat-Tells earlier later few =
    let names = first_calls (earlier ++ later) in
    let found = called later names in
    let rows = sort_by (λ (e : ℕ × ℕ). 2 ^ 64 - e.1) found in
    let shorter : length later < 2 ^ 64 = omega (arith, few, length-append earlier later) in
    let same = deltas-Tells earlier later few in
    let once : (x : ℕ) → Memᴰ x later → calls_of x names ≡ 1 = λ x m.
      let there = calls_of-member x later m in
      calls_of-first_calls_once x (earlier ++ later)
      ∙ rw (calls_of-append x earlier later) (ground (arith, there)) in
    let sum = sum_calls-length later names once in
    let small : (e : ℕ × ℕ) → Memᴰ e rows → e.1 < 2 ^ 64 = λ e m.
      let count = called-count later names e ((sort_by-Memᴰ (λ e. 2 ^ 64 - e.1) found e).0 m) in
      omega (arith, count, calls_of-le e.0 later, shorter) in
    (
      ap total_delta same ∙ total_delta-called later names (omega (arith, sum, shorter)) ∙ sum,
      ap length same,
      rows,
      Rising-Falling 0 rows (omega arith) small (sort_by-Rising (λ e. 2 ^ 64 - e.1) found),
      sort_by-length (λ e. 2 ^ 64 - e.1) found,
      sort_by-Memᴰ (λ e. 2 ^ 64 - e.1) found,
      ap (λ found. take 4 (sort_by (λ (e : ℕ × ℕ). 2 ^ 64 - e.1) found)) same,
    )
