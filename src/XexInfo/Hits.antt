-- ===== src/XexInfo/Hits.antt =====
-- The helpers that the search finds are those that are there.
use wosrecomp.Base.{
  ℕ, ◌+◌, ◌%◌, ◌≤◌, ◌≡◌, Bool, true, not, if◌then◌else◌, some, List, [], ◌++◌, length,
}
use mathlib.Core.List.{Memᴰ}
use mathlib.Core.List.Memᴰ
use wosrecomp.XexInfo.Helpers.{ImageSection, HelperPattern, total_bytes}
use wosrecomp.XexInfo.Signatures.{window}

-- A whole pattern stands at an address of a section: in code that is there, at a multiple of four
-- from the section's start, with all its bytes inside.
pub record IsHelper (pat : HelperPattern) (s : ImageSection) (a : ℕ) : Type 0 where
  pub off : ℕ
  pub data_of : ℕ → ℕ
  pub code : s.is_code ≡ true
  pub present : s.data_of ≡ some data_of
  pub aligned : off % 4 ≡ 0
  pub inside : off + total_bytes pat ≤ s.size
  pub place : a ≡ s.base + off
  pub whole : window data_of off (length (pat.bytes ++ pat.next)) ≡ pat.bytes ++ pat.next

-- The guards on a section.
module _ (a : ℕ) (l : List ℕ) where
  abbrev guarded : Bool → Bool → List ℕ
  guarded b c = if not b then [] else if c then [] else l
