-- ===== src/XexInfo/Signatures.antt =====
-- A byte sequence in a section, compared as `findHelpers` does.
use wosrecomp.Base.{
  ℕ, zero, suc, ◌+◌, ◌≡◌, inl, inr, refl, ap, ◌∙◌, sym, Bool, true, false, ◌&&◌, not, ◌==◌,
  if◌then◌else◌, Bool-cases, List, [], ◌∷◌, ◌++◌, length, arith,
}
use mathlib.Core.List.{head-eq_of_cons-eq, tail-eq_of_cons-eq}
use wosrecomp.XexInfo.Helpers.{HelperPattern, same_bytes, no_follow_on, matches}

-- The `n` bytes from `p` on.
abbrev pub window : (ℕ → ℕ) → ℕ → ℕ → List ℕ
window d p zero = []
window d p (suc n) = d p ∷ window d (p + 1) n

and_assoc : (a b c : Bool) → (a && (b && c)) ≡ ((a && b) && c)
and_assoc true b c = refl
and_assoc false b c = refl

and_both : (a b : Bool) → (a && b) ≡ true → (a ≡ true) × (b ≡ true)
and_both true b h = (refl, h)
and_both false b h = ground arith

same_bytes-append :
    (d : ℕ → ℕ) (p : ℕ) (xs ys : List ℕ)
    → same_bytes d p (xs ++ ys) ≡ (same_bytes d p xs && same_bytes d (p + length xs) ys)
unfolding same_bytes
same_bytes-append d p [] ys = ap (λ q. same_bytes d q ys) (omega arith)
same_bytes-append d p (x ∷ xs) ys =
    let moved : p + 1 + length xs ≡ p + suc (length xs) = omega arith in
    ap (λ t. (d p == x) && t)
      (same_bytes-append d (p + 1) xs ys
        ∙ ap (λ q. same_bytes d (p + 1) xs && same_bytes d q ys) moved)
    ∙ and_assoc (d p == x) (same_bytes d (p + 1) xs) (same_bytes d (p + length (x ∷ xs)) ys)

pub same_bytes-window :
    (d : ℕ → ℕ) (p : ℕ) (xs : List ℕ) → same_bytes d p xs ≡ true → window d p (length xs) ≡ xs
unfolding same_bytes
same_bytes-window d p [] h = refl
same_bytes-window d p (x ∷ xs) h =
    let (first, rest) = and_both (d p == x) (same_bytes d (p + 1) xs) h in
    let here : d p ≡ x = ground arith in
    ap (λ y. y ∷ window d (p + 1) (length xs)) here
    ∙ ap (λ l. x ∷ l) (same_bytes-window d (p + 1) xs rest)

pub window-same_bytes :
    (d : ℕ → ℕ) (p : ℕ) (xs : List ℕ) → window d p (length xs) ≡ xs → same_bytes d p xs ≡ true
unfolding same_bytes
window-same_bytes d p [] h = refl
window-same_bytes d p (x ∷ xs) h =
    let here : d p ≡ x = head-eq_of_cons-eq h in
    let first : (d p == x) ≡ true = ground arith in
    let rest : same_bytes d (p + 1) xs ≡ true =
      window-same_bytes d (p + 1) xs (tail-eq_of_cons-eq h) in
    ap (λ a. a && same_bytes d (p + 1) xs) first ∙ rest

cond_and : (a b : Bool) → (if not a then false else if not b then false else true) ≡ (a && b)
cond_and true true = refl
cond_and true false = refl
cond_and false b = refl

two_tests :
    (d : ℕ → ℕ) (off : ℕ) (bytes next : List ℕ)
    → (if not (same_bytes d off bytes)
        then false
        else if not (no_follow_on next) && not (same_bytes d (off + length bytes) next)
        then false
        else true)
      ≡ (same_bytes d off bytes && same_bytes d (off + length bytes) next)
unfolding no_follow_on same_bytes
two_tests d off bytes [] = elim (Bool-cases (same_bytes d off bytes)) [
  | inl h ↦ rw h refl
  | inr h ↦ rw h refl
]
two_tests d off bytes (b ∷ bs) =
    cond_and (same_bytes d off bytes) (same_bytes d (off + length bytes) (b ∷ bs))

pub matches_whole :
    (pat : HelperPattern) (d : ℕ → ℕ) (off : ℕ)
    → matches pat d off ≡ same_bytes d off (pat.bytes ++ pat.next)
unfolding matches
matches_whole pat d off =
    two_tests d off pat.bytes pat.next ∙ sym (same_bytes-append d off pat.bytes pat.next)
