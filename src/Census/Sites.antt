-- ===== src/Census/Sites.antt =====
-- What the census of call sites tells.
use wosrecomp.Base.{
  ℕ, ◌+◌, ◌^◌, ◌<◌, ◌≤◌, ◌≡◌, ◌⊎◌, inl, inr, refl, sym, ◌∙◌, Bool, ◌&&◌, if◌then◌else◌, leb, ◌==◌,
  List, [], ◌∷◌, length, arith,
}
use wosrecomp.Census.{
  SiteCall, CallSite, same_call_site, count_call_site, new_call_site, max_call_sites,
  log_call_sites,
}
use wosrecomp.Census.Table.{
  Census, calls_like, calls_at, is_there, calls_at-absent, record_all-calls, record_all-length,
}

unfoldable pub like_call : SiteCall → SiteCall → Bool
like_call p c = c.call_site == p.call_site && c.name == p.name

-- How many of the calls are from the site of `p` and to its import.
unfoldable pub calls_from : SiteCall → List SiteCall → ℕ
calls_from p [] = 0
calls_from p (c ∷ cs) = let rest = calls_from p cs in if like_call p c then rest + 1 else rest

-- The calls that the row of the site of `p` tells; 0 where it has no row.
pub told : SiteCall → List CallSite → ℕ
told p [] = 0
told p (s ∷ rows) = let rest = told p rows in if same_call_site p s then s.calls else rest

call_census : Census same_call_site count_call_site new_call_site
unfolding same_call_site count_call_site new_call_site like_call
call_census = record {
  like = like_call;
  calls = λ s. s.calls;
  same_count = λ p c r. refl;
  same_start = λ p c. refl;
  same_like = λ p c r l. ground arith;
  same_both = λ p c r f e. ground arith;
  calls_count = λ c r. refl;
  calls_start = λ c. refl;
}

module _ (full : ℕ → Bool) where
  told-eq : (p : SiteCall) (rows : List CallSite) → told p rows ≡ calls_at full call_census p rows
  unfolding told calls_at call_census
  told-eq p [] = refl
  told-eq p (s ∷ rows) = rw (told-eq p rows) refl

  calls_from-eq :
      (p : SiteCall) (cs : List SiteCall) → calls_from p cs ≡ calls_like full call_census p cs
  unfolding calls_from calls_like call_census
  calls_from-eq p [] = refl
  calls_from-eq p (c ∷ cs) = rw (calls_from-eq p cs) refl

-- In fewer than 2 ^ 64 calls of LogCallSite, the table that was empty before has at most 48 rows,
-- and for each site and import it tells all their calls, or has no row for them and 48 others.
pub log_call_sites-Tells :
    (calls : List SiteCall) (p : SiteCall)
    → length calls < 2 ^ 64
    → let rows = log_call_sites calls [] in
      (length rows ≤ 48)
      × ((told p rows ≡ calls_from p calls) ⊎ ((told p rows ≡ 0) × (length rows ≡ 48)))
unfolding log_call_sites is_there
log_call_sites-Tells calls p few =
    let full = leb max_call_sites in
    let rows = log_call_sites calls [] in
    let most =
      record_all-length same_call_site count_call_site new_call_site 48 calls [] (omega arith) in
    (
      most,
      elim (record_all-calls full call_census calls p [] few refl) [
        | inl e ↦ inl (told-eq full p rows ∙ e ∙ sym (calls_from-eq full p calls))
        | inr (gone, all) ↦ inr (
          told-eq full p rows ∙ calls_at-absent full call_census p rows gone,
          ground (arith, most),
        )
      ],
    )
