-- ===== src/Census/Heartbeat.antt =====
-- The differences that the heartbeat sorts: the calls between two snapshots of the import log.
use wosrecomp.Base.{
  ℕ, ◌+◌, ◌-◌, ◌^◌, ◌<◌, ◌≡◌, refl, sym, ◌∙◌, false, if◌then◌else◌, ltb, ◌==◌, List, [], ◌∷◌, ◌++◌,
  map, length, length-append, put, arith, Bool-cases, inl, inr,
}
use wosrecomp.Census.{
  ImportLog, count_of, empty_log, log_import_call, log_import_calls, snapshot_import_counts,
  before_of, deltas_from, deltas,
}
use wosrecomp.Census.Imports.{
  first_calls, without, calls_of, count_of-put, snapshot_import_counts-Tells,
}

-- The imports of a list that were called in a run, each with its calls.
unfoldable pub called : List ℕ → List ℕ → List (ℕ × ℕ)
called run [] = []
called run (name ∷ names) =
    let rest = called run names in
    if ltb 0 (calls_of name run) then (name, calls_of name run) ∷ rest else rest

pub calls_of-append :
    (n : ℕ) (xs ys : List ℕ) → calls_of n (xs ++ ys) ≡ calls_of n xs + calls_of n ys
unfolding calls_of
calls_of-append n [] ys = omega arith
calls_of-append n (x ∷ xs) ys = ground (arith, calls_of-append n xs ys)

abbrev tells : List ℕ → ℕ → ℕ × ℕ
tells run name = (name, calls_of name run)

-- The map from the previous snapshot tells the calls of every import, 0 for one that is not in it.
before_of-calls :
    (run names : List ℕ) (before : List (ℕ × ℕ)) (j : ℕ)
    → count_of (before_of (map (tells run) names) before) j
      ≡ (if ltb 0 (calls_of j names) then calls_of j run else count_of before j)
unfolding before_of calls_of
before_of-calls run [] before j = refl
before_of-calls run (n ∷ names) before j =
    let ih = before_of-calls run names (put before n (calls_of n run)) j in
    let here = count_of-put before n (calls_of n run) j in
    elim (Bool-cases (j == n)) [
      | inl e ↦
          let same : n ≡ j = ground arith in
          let told : count_of (put before n (calls_of n run)) j ≡ calls_of j run =
            here ∙ rw same (ground arith) in
          ih ∙ rw (e, told) (ground arith)
      | inr e ↦
          let kept : count_of (put before n (calls_of n run)) j ≡ count_of before j =
            here ∙ ground arith in
          ih ∙ rw (e, kept) refl
    ]

-- An import stands among the first calls exactly when it was called.
pub calls_of-without :
    (j n : ℕ) (ns : List ℕ) → calls_of j (without n ns) ≡ (if n == j then 0 else calls_of j ns)
unfolding calls_of without
calls_of-without j n [] = ground arith
calls_of-without j n (m ∷ ms) =
    let ih = calls_of-without j n ms in
    elim (Bool-cases (n == m)) [
      | inl e ↦ let same : n ≡ m = ground arith in rw (e, sym same, ih) (ground arith)
      | inr e ↦ rw (e, ih) (ground arith)
    ]

calls_of-first_calls :
    (j : ℕ) (ns : List ℕ) → ltb 0 (calls_of j (first_calls ns)) ≡ ltb 0 (calls_of j ns)
unfolding calls_of first_calls
calls_of-first_calls j [] = refl
calls_of-first_calls j (n ∷ ns) =
    let ih = calls_of-first_calls j ns in
    let w = calls_of-without j n (first_calls ns) in
    elim (Bool-cases (j == n)) [
      | inl e ↦ rw e (ground arith)
      | inr e ↦ let differ : (n == j) ≡ false = ground arith in rw (e, w, differ) ih
    ]

deltas_from-called :
    (earlier later names : List ℕ) (before : List (ℕ × ℕ))
    → ((j : ℕ) → count_of before j ≡ calls_of j earlier)
    → deltas_from before (map (tells (earlier ++ later)) names) ≡ called later names
unfolding deltas_from called
deltas_from-called earlier later [] before h = refl
deltas_from-called earlier later (n ∷ names) before h =
    let ih = deltas_from-called earlier later names before h in
    let rest : calls_of n earlier + calls_of n later - calls_of n earlier ≡ calls_of n later =
      omega arith in
    let more : ltb (calls_of n earlier) (calls_of n earlier + calls_of n later)
        ≡ ltb 0 (calls_of n later) =
      ground arith in
    rw (ih, h n, calls_of-append n earlier later, rest, more) refl

log_import_calls-append :
    (xs ys : List ℕ) (log : ImportLog)
    → log_import_calls (xs ++ ys) log ≡ log_import_calls ys (log_import_calls xs log)
unfolding log_import_calls
log_import_calls-append [] ys log = refl
log_import_calls-append (x ∷ xs) ys log = log_import_calls-append xs ys (log_import_call log x)

-- The differences between two snapshots of the log, in the order of the imports' first calls.
pub deltas-Tells :
    (earlier later : List ℕ)
    → length (earlier ++ later) < 2 ^ 64
    → let before = log_import_calls earlier empty_log in
      deltas
        (snapshot_import_counts before)
        (snapshot_import_counts (log_import_calls later before))
      ≡ called later (first_calls (earlier ++ later))
unfolding deltas count_of
deltas-Tells earlier later few =
    let shorter : length earlier < 2 ^ 64 = omega (arith, few, length-append earlier later) in
    let counts : (j : ℕ)
        → count_of (before_of (map (tells earlier) (first_calls earlier)) []) j
          ≡ calls_of j earlier =
      λ j.
        before_of-calls earlier (first_calls earlier) [] j
        ∙ rw (calls_of-first_calls j earlier) (ground arith) in
    rw
      (
        sym (log_import_calls-append earlier later empty_log),
        snapshot_import_counts-Tells earlier shorter,
        snapshot_import_counts-Tells (earlier ++ later) few,
      )
      (deltas_from-called earlier later (first_calls (earlier ++ later)) _ counts)
