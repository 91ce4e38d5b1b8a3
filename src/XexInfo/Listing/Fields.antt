-- ===== src/XexInfo/Listing/Fields.antt =====
-- The D-form accesses that `fieldRefs` lists, by their opcodes.
use wosrecomp.Base.{
  ℕ, ◌+◌, ◌*◌, ◌/◌, ◌%◌, ◌^◌, ◌≤◌, ◌≡◌, ◌⊎◌, Bool, true, false, ◌&&◌, ◌||◌, leb, u32,
}
use wosrecomp.XexImage.{XexSection, XexImage, big_word}
use wosrecomp.XexInfo.Listing.{Test}
use wosrecomp.XexInfo.Listing.Sites.{IsSite}

abbrev pub IsStore : ℕ → Type 0
IsStore op = ((36 ≤ op) × (op ≤ 39)) ⊎ ((44 ≤ op) × (op ≤ 45))

-- An integer load or store of the D-form with a displacement; a store, if only those are asked for.
abbrev pub IsAccess : ℕ → Bool → ℕ → Type 0
IsAccess displacement stores_only insn =
    (32 ≤ insn / 2 ^ 26)
    × (insn / 2 ^ 26 ≤ 45)
    × (insn % 2 ^ 16 ≡ displacement % 2 ^ 16)
    × ((stores_only ≡ false) ⊎ IsStore (insn / 2 ^ 26))

is_store_op : ℕ → Bool
is_store_op op = (leb 36 op && leb op 39) || leb 44 op

-- Every word at a site.
abbrev pub any_word : Test
any_word site insn = true

-- A site of one test whose word passes another.
retest :
    (test test' : Test) (code_only : Bool) (im : XexImage) (s : XexSection) (a : ℕ)
    (i : IsSite test code_only im s a)
    → test' (u32 (s.base + 4 * i.index)) (big_word im.host (i.source + 4 * i.index)) ≡ true
    → IsSite test' code_only im s a
retest test test' code_only im s a i passes = record {
  source = i.source;
  index = i.index;
  right_kind = i.right_kind;
  present = i.present;
  backed = i.backed;
  in_buffer = i.in_buffer;
  named = i.named;
  passes = passes;
}
