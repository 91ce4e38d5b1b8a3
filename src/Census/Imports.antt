-- ===== src/Census/Imports.antt =====
-- The import log tells each import that was called, in the order of the first calls, with its
-- calls.
use wosrecomp.Base.{
  ℕ, ◌+◌, ◌%◌, ◌^◌, ◌<◌, ◌≡◌, refl, sym, ap, ◌∙◌, true, ◌||◌, if◌then◌else◌, ◌==◌, List, [], ◌∷◌,
  ◌++◌, map, length, put, find-put_self, find-put_ne, arith, Bool-cases, inl, inr,
}
use mathlib.Core.List.{append-nil, append_assoc}
use wosrecomp.Census.{
  ImportLog, empty_log, count_of, is_counted, log_import_call, log_import_calls,
  snapshot_import_counts,
}

-- The names without their repetitions, each where it first stands.
unfoldable pub without : ℕ → List ℕ → List ℕ
without n [] = []
without n (m ∷ ms) = let rest = without n ms in if n == m then rest else m ∷ rest

unfoldable pub first_calls : List ℕ → List ℕ
first_calls [] = []
first_calls (n ∷ ns) = n ∷ without n (first_calls ns)

-- How often a name stands in a run.
unfoldable pub calls_of : ℕ → List ℕ → ℕ
calls_of n [] = 0
calls_of n (m ∷ ms) = let rest = calls_of n ms in if n == m then rest + 1 else rest

is_counted-put :
    (c : List (ℕ × ℕ)) (n v j : ℕ) → is_counted (put c n v) j ≡ (n == j || is_counted c j)
unfolding is_counted
is_counted-put c n v j = elim (Bool-cases (n == j)) [
  | inl e ↦
      let same : n ≡ j = ground arith in
      rw (e, sym same) (rw (is_counted, find-put_self c n v) refl)
  | inr e ↦ rw (e, is_counted, find-put_ne c n j v (ground arith)) refl
]

pub count_of-put :
    (c : List (ℕ × ℕ)) (n v j : ℕ) → count_of (put c n v) j ≡ (if n == j then v else count_of c j)
unfolding count_of
count_of-put c n v j = elim (Bool-cases (n == j)) [
  | inl e ↦
      let same : n ≡ j = ground arith in rw (e, sym same) (rw (count_of, find-put_self c n v) refl)
  | inr e ↦ rw (e, count_of, find-put_ne c n j v (ground arith)) refl
]

-- Those of a list that no call has counted.
uncounted : List (ℕ × ℕ) → List ℕ → List ℕ
uncounted c [] = []
uncounted c (n ∷ ns) = let rest = uncounted c ns in if is_counted c n then rest else n ∷ rest

uncounted-put :
    (c : List (ℕ × ℕ)) (n v : ℕ) (ns : List ℕ)
    → uncounted (put c n v) ns ≡ uncounted c (without n ns)
unfolding uncounted without
uncounted-put c n v [] = refl
uncounted-put c n v (m ∷ ms) =
    let ih = uncounted-put c n v ms in
    elim (Bool-cases (n == m)) [
      | inl e ↦ rw (is_counted-put c n v m, e) ih
      | inr e ↦ rw (is_counted-put c n v m, e, ih) refl
    ]

uncounted-without :
    (c : List (ℕ × ℕ)) (n : ℕ) (ns : List ℕ)
    → is_counted c n ≡ true
    → uncounted c (without n ns) ≡ uncounted c ns
unfolding uncounted without
uncounted-without c n [] h = refl
uncounted-without c n (m ∷ ms) h =
    let ih = uncounted-without c n ms h in
    elim (Bool-cases (n == m)) [
      | inl e ↦ let same : n ≡ m = ground arith in rw (e, sym same, h) ih
      | inr e ↦ rw (e, ih) refl
    ]

log_import_calls-order :
    (names : List ℕ) (log : ImportLog)
    → (log_import_calls names log).order ≡ log.order ++ uncounted log.counts (first_calls names)
unfolding log_import_calls log_import_call uncounted first_calls
log_import_calls-order [] log = sym (append-nil log.order)
log_import_calls-order (n ∷ names) log =
    let ih = log_import_calls-order names (log_import_call log n) in
    let later =
      uncounted-put log.counts n ((count_of log.counts n + 1) % 2 ^ 64) (first_calls names) in
    elim (Bool-cases (is_counted log.counts n)) [
      | inl e ↦ ih ∙ rw (e, later, uncounted-without log.counts n (first_calls names) e) refl
      | inr e ↦ ih ∙ rw (e, later) (append_assoc log.order (n ∷ []) _)
    ]

log_import_calls-count :
    (names : List ℕ) (log : ImportLog) (j : ℕ)
    → count_of log.counts j + length names < 2 ^ 64
    → count_of ((log_import_calls names log).counts) j ≡ count_of log.counts j + calls_of j names
unfolding log_import_calls log_import_call calls_of
log_import_calls-count [] log j small = omega arith
log_import_calls-count (n ∷ names) log j small =
    let here = count_of-put log.counts n ((count_of log.counts n + 1) % 2 ^ 64) j in
    let ih = log_import_calls-count names (log_import_call log n) j (ground arith) in
    ih ∙ ground arith

map-same {ℓ κ} :
    {A : Type ℓ} {B : Type κ} (f g : A → B) (xs : List A)
    → ((x : A) → f x ≡ g x)
    → map f xs ≡ map g xs
map-same f g [] h = refl
map-same f g (x ∷ xs) h = rw (h x, map-same f g xs h) refl

uncounted-all : (ns : List ℕ) → uncounted [] ns ≡ ns
unfolding uncounted is_counted
uncounted-all [] = refl
uncounted-all (n ∷ ns) = ap (λ rest. n ∷ rest) (uncounted-all ns)

-- In fewer than 2 ^ 64 calls of imports, a snapshot of the log that was empty before tells each
-- import that was called once, in the order of the first calls, with the number of its calls.
pub snapshot_import_counts-Tells :
    (names : List ℕ)
    → length names < 2 ^ 64
    → snapshot_import_counts (log_import_calls names empty_log)
      ≡ map (λ name. (name, calls_of name names)) (first_calls names)
unfolding snapshot_import_counts count_of
snapshot_import_counts-Tells names few =
    let log = log_import_calls names empty_log in
    let order : log.order ≡ first_calls names =
      log_import_calls-order names empty_log ∙ uncounted-all (first_calls names) in
    let counts : (name : ℕ) → count_of log.counts name ≡ calls_of name names =
      λ name. log_import_calls-count names empty_log name (omega (arith, few)) ∙ omega arith in
    map-same (λ name. (name, count_of log.counts name)) (λ name. (name, calls_of name names))
      log.order (λ name. ap (λ n. (name, n)) (counts name))
    ∙ ap (map (λ name. (name, calls_of name names))) order
