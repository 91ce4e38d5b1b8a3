-- ===== src/Paths/Device.antt =====
-- How many parts of a device path are dropped.
use wosrecomp.Base.{
  ℕ, suc, ◌≡◌, ◌≢◌, refl, ap, ◌∙◌, true, Option, none, some, List, [], ◌∷◌, ◌++◌, map, All,
  All-append, All-map, drop, arith,
}
use wosrecomp.Paths.{
  backslash, slash, colon, device_prefix, after, starts_with, skip_backslashes, or_empty,
  strip_device, strip_separators, to_slash, non_empty, resolve_guest_path,
}

-- A part of a path: no separator and no colon in it.
abbrev pub IsPart : List ℕ → Type 0
IsPart = All (λ x. (x ≢ backslash) × (x ≢ slash) × (x ≢ colon))

after-part : (xs ys : List ℕ) → IsPart xs → after backslash (xs ++ backslash ∷ ys) ≡ some ys
unfolding after
after-part [] ys h = refl
after-part (x ∷ xs) ys h = ground (arith, h.0, after-part xs ys h.1)

after-part_only : (xs : List ℕ) → IsPart xs → after backslash xs ≡ none
unfolding after
after-part_only [] h = refl
after-part_only (x ∷ xs) h = ground (arith, h.0, after-part_only xs h.1)

NoColon : List ℕ → Type 0
NoColon = All (λ x. x ≢ colon)

after-no_colon : (xs : List ℕ) → All (λ x. x ≢ colon) xs → after colon xs ≡ none
unfolding after
after-no_colon [] h = refl
after-no_colon (x ∷ xs) h = ground (arith, h.0, after-no_colon xs h.1)

-- The path \Device\name\partition\first\rest.
abbrev pub device_path : List ℕ → List ℕ → List ℕ → List ℕ
device_path name partition rest =
    device_prefix ++ (name ++ backslash ∷ (partition ++ backslash ∷ rest))

skip-step :
    (m : ℕ) (xs ys : List ℕ)
    → after backslash xs ≡ some ys
    → skip_backslashes (suc m) xs ≡ skip_backslashes m ys
unfolding skip_backslashes
skip-step m xs ys e = ground (arith, e)

skip-none : (m : ℕ) (xs : List ℕ) → after backslash xs ≡ none → skip_backslashes (suc m) xs ≡ none
unfolding skip_backslashes
skip-none m xs e = ground (arith, e)

part-NoColon : (xs : List ℕ) → IsPart xs → NoColon xs
unfolding NoColon
part-NoColon xs h =
    All-map (λ x. (x ≢ backslash) × (x ≢ slash) × (x ≢ colon)) (λ x. x ≢ colon) xs (λ x a. a.2) h

strip_device-eq :
    (path : List ℕ)
    → NoColon path
    → starts_with device_prefix path ≡ true
    → strip_device path ≡ or_empty (skip_backslashes 4 (drop 1 path))
unfolding strip_device NoColon
strip_device-eq path h e = ground (arith, e, after-no_colon path h)

module _ (name partition : List ℕ) (n : IsPart name) (q : IsPart partition) where
  -- Behind the device and the partition, one more search is made in what is left.
  skip-device :
      (rest : List ℕ)
      → skip_backslashes 4 (drop 1 (device_path name partition rest)) ≡ skip_backslashes 1 rest
  skip-device rest =
      skip-step 3 (drop 1 (device_path name partition rest))
        (name ++ backslash ∷ (partition ++ backslash ∷ rest)) (unfold after in refl)
      ∙ skip-step 2 (name ++ backslash ∷ (partition ++ backslash ∷ rest))
          (partition ++ backslash ∷ rest) (after-part name (partition ++ backslash ∷ rest) n)
      ∙ skip-step 1 (partition ++ backslash ∷ rest) rest (after-part partition rest q)

  device_path-NoColon : (rest : List ℕ) → NoColon rest → NoColon (device_path name partition rest)
  unfolding NoColon
  device_path-NoColon rest h =
      All-append (λ x. x ≢ colon) device_prefix
        (name ++ backslash ∷ (partition ++ backslash ∷ rest)) (ground arith)
        (All-append (λ x. x ≢ colon) name (backslash ∷ (partition ++ backslash ∷ rest))
          (part-NoColon name n)
          (
            (ground arith),
            All-append (λ x. x ≢ colon) partition (backslash ∷ rest) (part-NoColon partition q)
                ((ground arith), h),
          ))

  strip_device-device :
      (rest : List ℕ)
      → NoColon rest
      → strip_device (device_path name partition rest) ≡ or_empty (skip_backslashes 1 rest)
  strip_device-device rest h =
      strip_device-eq (device_path name partition rest) (device_path-NoColon rest h)
        (unfold starts_with in refl)
      ∙ ap or_empty (skip-device rest)

  -- On a device path whose parts hold no separator and no colon, with a known root, what stands
  -- directly behind the partition is dropped: a first directory is not part of the result, and a
  -- file there is not resolved at all.
  pub resolve_guest_path-device :
      (first rest : List ℕ)
      → IsPart first
      → All (λ x. x ≢ colon) rest
      → (resolve_guest_path true (device_path name partition (first ++ backslash ∷ rest))
          ≡ non_empty (map to_slash (strip_separators rest)))
        × (resolve_guest_path true (device_path name partition first) ≡ none)
  unfolding resolve_guest_path NoColon non_empty strip_separators or_empty skip_backslashes
  resolve_guest_path-device first rest f r =
      let resolved : Option (List ℕ) → Option (List ℕ) =
        λ o. non_empty (map to_slash (strip_separators (or_empty o))) in
      (
        ap (λ p. non_empty (map to_slash (strip_separators p)))
              (strip_device-device (first ++ backslash ∷ rest) (
                All-append (λ x. x ≢ colon) first (backslash ∷ rest) (part-NoColon first f)
                  ((ground arith), r)))
            ∙ ap resolved (skip-step 0 (first ++ backslash ∷ rest) rest (after-part first rest f)),
        ap (λ p. non_empty (map to_slash (strip_separators p)))
              (strip_device-device first (part-NoColon first f))
            ∙ ap resolved (skip-none 0 first (after-part_only first f)),
      )
