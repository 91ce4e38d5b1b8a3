-- ===== src/Loader/Pages.antt =====
-- The committing of guest pages on first touch: `GuestPageCommitter`, and its threads.
pub mod Limits
use wosrecomp.Base.{
  ℕ, ◌+◌, ◌-◌, ◌*◌, ◌^◌, ◌≤◌, ◌<◌, ◌≡◌, Bool, true, ◌&&◌, ◌||◌, not, if◌then◌else◌, ltb, leb, ◌==◌,
  arith, u64, and_not64,
}
use wosrecomp.Heap.{Commit}

abbrev pub auto_commit_granularity : ℕ
auto_commit_granularity = 0x1_0000

abbrev pub auto_commit_ceiling : ℕ
auto_commit_ceiling = 0x2000_0000

abbrev pub stack_runaway_limit : ℕ
stack_runaway_limit = 0x20_0000

abbrev pub stack_region_span : ℕ
stack_region_span = 0x1000_0000

-- The exception record, `g_autoCommit`, and where guest memory is in the host's.
pub record Fault : Type 0 where
  pub is_access_violation : Bool
  pub number_parameters : ℕ
  pub address : ℕ

pub record Reservation : Type 0 where
  pub auto_commit : Bool
  pub guest_base : ℕ
  pub guest_size : ℕ
  pub stack_top : ℕ

-- `g_autoCommitBytes`, `g_autoCommitCount` and `g_stackCommitBytes`.
pub record Pages : Type 0 where
  pub bytes : ℕ
  pub commits : ℕ
  pub stack_bytes : ℕ

pub data Verdict : Type 0 where
  continue_search : Verdict
  continue_execution : Verdict
  report_runaway_stack : Verdict

-- The handler's guards.
unfoldable pub passes_guards : Reservation → Fault → Pages → Bool
passes_guards v f p =
    not (not f.is_access_violation || ltb f.number_parameters 2)
    && not (
        not v.auto_commit
        || v.guest_base == 0
        || ltb f.address v.guest_base
        || leb (v.guest_base + v.guest_size) f.address)
    && not (leb auto_commit_ceiling p.bytes)

unfoldable pub region_of : Reservation → Fault → ℕ
region_of v f = and_not64 (f.address - v.guest_base) (auto_commit_granularity - 1)

-- What is counted for a region that was committed.
unfoldable pub count_commit : Reservation → ℕ → Pages → Verdict × Pages
count_commit v region p =
    let near = ltb region v.stack_top && leb v.stack_top (region + stack_region_span) in
    let grown = u64 (p.stack_bytes + auto_commit_granularity) in
    (
      if near && leb stack_runaway_limit grown then report_runaway_stack else continue_execution,
      record {
        bytes = u64 (p.bytes + auto_commit_granularity);
        commits = u64 (p.commits + 1);
        stack_bytes = if near then grown else p.stack_bytes;
      },
    )

unfoldable pub guest_page_committer : Commit → Reservation → Fault → Pages → Verdict × Pages
guest_page_committer commit v f p =
    let region = region_of v f in
    if passes_guards v f p && commit region auto_commit_granularity
    then count_commit v region p
    else (continue_search, p)
