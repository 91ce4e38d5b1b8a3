-- ===== src/Paths/Resolved.antt =====
-- What a resolved path looks like.
use wosrecomp.Base.{
  ℕ, ◌≡◌, ◌≢◌, ◌⊎◌, inl, inr, refl, Bool, true, false, ◌||◌, ◌==◌, some, List, [], ◌∷◌, map, All,
  Bool-cases, arith,
}
use wosrecomp.Paths.{
  backslash, slash, strip_separators, to_slash, non_empty, strip_device, resolve_guest_path,
}

-- A path with a first byte, which is not a separator.
abbrev pub IsRelative : List ℕ → Type 0
IsRelative [] = ⊥
IsRelative (x ∷ xs) = (x ≢ slash) × (x ≢ backslash)

to_slash-ne : (x : ℕ) → to_slash x ≢ backslash
unfolding to_slash
to_slash-ne x = ground arith

map-to_slash : (xs : List ℕ) → All (λ x. x ≢ backslash) (map to_slash xs)
map-to_slash [] = tt
map-to_slash (x ∷ xs) = (to_slash-ne x, map-to_slash xs)

strip_separators-head :
    (xs : List ℕ) → (strip_separators xs ≡ []) ⊎ IsRelative (strip_separators xs)
unfolding strip_separators
strip_separators-head [] = inl refl
strip_separators-head (x ∷ xs) = elim (Bool-cases (x == backslash || x == slash)) [
  | inl e ↦ rw e (strip_separators-head xs)
  | inr e ↦ rw e (inr (ground (arith, e), ground (arith, e)))
]

map-IsRelative : (xs : List ℕ) → IsRelative xs → IsRelative (map to_slash xs)
unfolding to_slash
map-IsRelative [] r = r
map-IsRelative (x ∷ xs) r = (ground (arith, r), ground (arith, r))

-- A path as the host wants it: no backslash, and relative.
pub record IsHostPath (p : List ℕ) : Type 0 where
  pub no_backslash : All (λ x. x ≢ backslash) p
  pub relative : IsRelative p

non_empty-lem :
    (xs p : List ℕ)
    → (xs ≡ []) ⊎ IsRelative xs
    → non_empty (map to_slash xs) ≡ some p
    → IsHostPath p
unfolding non_empty
non_empty-lem [] p h e = ground (arith, e)
non_empty-lem (x ∷ xs) p h e =
    let same : to_slash x ∷ map to_slash xs ≡ p = ground (arith, e) in
    let head : IsRelative (x ∷ xs) = elim h [ inl bad ↦ ground (arith, bad) | inr r ↦ r ] in
    rw (← same)
      (record { no_backslash = map-to_slash (x ∷ xs); relative = map-IsRelative (x ∷ xs) head })

-- Whatever the guest's path, one that is resolved holds no backslash, is not empty and does not
-- start with a slash.
pub resolve_guest_path-IsHostPath :
    (root_known : Bool) (path p : List ℕ)
    → resolve_guest_path root_known path ≡ some p
    → IsHostPath p
unfolding resolve_guest_path
resolve_guest_path-IsHostPath false path p e = ground (arith, e)
resolve_guest_path-IsHostPath true path p e =
    non_empty-lem (strip_separators (strip_device path)) p
      (strip_separators-head (strip_device path)) e
