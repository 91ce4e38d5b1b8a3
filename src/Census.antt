-- ===== src/Census.antt =====
-- The counts of calls that the runtime keeps for its reports: the import log and the census of call
-- sites, WoSRecomp/kernel/import_log.cpp, the census of waits, WoSRecomp/kernel/sync.cpp, that of
-- alertable waits, WoSRecomp/kernel/file.cpp, and what the heartbeat of WoSRecomp/main.cpp reads
-- off two snapshots. A name is the address of its literal, as the source compares it.
pub mod Imports
pub mod Table
pub mod Sites
pub mod Heartbeat
pub mod Busiest
use wosrecomp.Base.{
  ℕ, ◌+◌, ◌-◌, ◌%◌, ◌^◌, Bool, true, false, ◌&&◌, ◌||◌, not, if◌then◌else◌, ltb, leb, ◌==◌, List,
  [], ◌∷◌, ◌++◌, map, length, take, Option, none, some, find, put, get_or, sort_by,
}

-- `g_order` and `g_counts`.
pub record ImportLog : Type 0 where
  pub order : List ℕ
  pub counts : List (ℕ × ℕ)

abbrev pub empty_log : ImportLog
empty_log = record { order = []; counts = [] }

unfoldable pub count_of : List (ℕ × ℕ) → ℕ → ℕ
count_of counts name = elim (find counts name) [ none ↦ 0 | some n ↦ n ]

unfoldable pub is_counted : List (ℕ × ℕ) → ℕ → Bool
is_counted counts name = elim (find counts name) [ none ↦ false | some n ↦ true ]

-- The `try_emplace` of a count of 0, the increment, which wraps, and the first call's place.
unfoldable pub log_import_call : ImportLog → ℕ → ImportLog
log_import_call log name = record log {
  order = if is_counted log.counts name then log.order else log.order ++ (name ∷ []);
  counts = put log.counts name ((count_of log.counts name + 1) % 2 ^ 64);
}

unfoldable pub log_import_calls : List ℕ → ImportLog → ImportLog
log_import_calls [] log = log
log_import_calls (name ∷ names) log = log_import_calls names (log_import_call log name)

unfoldable pub snapshot_import_counts : ImportLog → List (ℕ × ℕ)
snapshot_import_counts log = map (λ name. (name, count_of log.counts name)) log.order

-- The loop over a table of sites: a call is counted in its row, or makes a new one unless the table
-- is full. `seen` rows stand before these.
module _ {C A : Type 0} (same : C → A → Bool) (count : C → A → A) (start : C → A)
    (full : ℕ → Bool) where
  unfoldable pub record_from : ℕ → C → List A → List A
  record_from seen c [] = if full seen then [] else start c ∷ []
  record_from seen c (r ∷ rows) =
      let rest = record_from (seen + 1) c rows in if same c r then count c r ∷ rows else r ∷ rest

  unfoldable pub record_all : List C → List A → List A
  record_all [] rows = rows
  record_all (c ∷ cs) rows = record_all cs (record_from 0 c rows)

pub record CallSite : Type 0 where
  pub name : ℕ
  pub call_site : ℕ
  pub last_detail : ℕ
  pub calls : ℕ

-- The arguments of LogCallSite.
pub record SiteCall : Type 0 where
  pub name : ℕ
  pub call_site : ℕ
  pub detail : ℕ

abbrev pub max_call_sites : ℕ
max_call_sites = 48

unfoldable pub same_call_site : SiteCall → CallSite → Bool
same_call_site c s = s.call_site == c.call_site && s.name == c.name

unfoldable pub count_call_site : SiteCall → CallSite → CallSite
count_call_site c s = record s { last_detail = c.detail; calls = (s.calls + 1) % 2 ^ 64 }

unfoldable pub new_call_site : SiteCall → CallSite
new_call_site c = record {
  name = c.name;
  call_site = c.call_site;
  last_detail = c.detail;
  calls = 1;
}

unfoldable pub log_call_site : SiteCall → List CallSite → List CallSite
log_call_site = record_from same_call_site count_call_site new_call_site (leb max_call_sites) 0

unfoldable pub log_call_sites : List SiteCall → List CallSite → List CallSite
log_call_sites = record_all same_call_site count_call_site new_call_site (leb max_call_sites)

-- The rows that ReportCallSites prints, the busiest first.
unfoldable pub report_call_sites : List CallSite → List CallSite
report_call_sites rows = take 6 (sort_by (λ s. 2 ^ 64 - s.calls) rows)

-- The last timeout is an `int64_t` and counts as a word.
pub record WaitSite : Type 0 where
  pub call_site : ℕ
  pub object : ℕ
  pub timeout_ms : ℕ
  pub calls : ℕ
  pub timeouts : ℕ

-- The arguments of RecordWaitSite.
pub record WaitCall : Type 0 where
  pub call_site : ℕ
  pub object : ℕ
  pub timeout_ms : ℕ
  pub signalled : Bool

abbrev pub max_wait_sites : ℕ
max_wait_sites = 64

unfoldable pub same_wait_site : WaitCall → WaitSite → Bool
same_wait_site c s = s.call_site == c.call_site && s.object == c.object

unfoldable pub count_wait_site : WaitCall → WaitSite → WaitSite
count_wait_site c s = record s {
  timeout_ms = c.timeout_ms;
  calls = (s.calls + 1) % 2 ^ 64;
  timeouts = if c.signalled then s.timeouts else (s.timeouts + 1) % 2 ^ 64;
}

unfoldable pub new_wait_site : WaitCall → WaitSite
new_wait_site c = record {
  call_site = c.call_site;
  object = c.object;
  timeout_ms = c.timeout_ms;
  calls = 1;
  timeouts = if c.signalled then 0 else 1;
}

unfoldable pub record_wait_site : WaitCall → List WaitSite → List WaitSite
record_wait_site = record_from same_wait_site count_wait_site new_wait_site (leb max_wait_sites) 0

-- The rows that ReportWaitSites prints, the busiest first.
unfoldable pub report_wait_sites : List WaitSite → List WaitSite
report_wait_sites rows = take 8 (sort_by (λ s. 2 ^ 64 - s.calls) rows)

pub record AlertableStat : Type 0 where
  pub who : ℕ
  pub alertable : ℕ
  pub plain : ℕ

-- A wait import, and whether it was called as alertable.
pub record AlertableCall : Type 0 where
  pub who : ℕ
  pub alertable : ℕ

unfoldable pub same_alertable : AlertableCall → AlertableStat → Bool
same_alertable c s = s.who == c.who

unfoldable pub count_alertable : AlertableCall → AlertableStat → AlertableStat
count_alertable c s =
    if not (c.alertable == 0)
    then record s { alertable = (s.alertable + 1) % 2 ^ 64 }
    else record s { plain = (s.plain + 1) % 2 ^ 64 }

unfoldable pub new_alertable : AlertableCall → AlertableStat
new_alertable c = record {
  who = c.who;
  alertable = if not (c.alertable == 0) then 1 else 0;
  plain = if not (c.alertable == 0) then 0 else 1;
}

unfoldable pub record_alertable : AlertableCall → List AlertableStat → List AlertableStat
record_alertable = record_from same_alertable count_alertable new_alertable (λ size. false) 0

-- The heartbeat's `before`, from the previous snapshot. It compares the texts of the literals, of
-- which each import has its own.
unfoldable pub before_of : List (ℕ × ℕ) → List (ℕ × ℕ) → List (ℕ × ℕ)
before_of [] before = before
before_of ((name, count) ∷ previous) before = before_of previous (put before name count)

unfoldable pub deltas_from : List (ℕ × ℕ) → List (ℕ × ℕ) → List (ℕ × ℕ)
deltas_from before [] = []
deltas_from before ((name, count) ∷ current) =
    let rest = deltas_from before current in
    if ltb (count_of before name) count then (name, count - count_of before name) ∷ rest else rest

unfoldable pub deltas : List (ℕ × ℕ) → List (ℕ × ℕ) → List (ℕ × ℕ)
deltas previous current = deltas_from (before_of previous []) current

-- `totalDelta`; the sum wraps.
unfoldable pub total_delta : List (ℕ × ℕ) → ℕ
total_delta [] = 0
total_delta ((name, count) ∷ found) = (count + total_delta found) % 2 ^ 64

-- What a turn of the heartbeat prints: the calls, the imports that were called, and the four of
-- them that were called most, in falling order.
pub record Activity : Type 0 where
  pub calls : ℕ
  pub imports : ℕ
  pub busiest : List (ℕ × ℕ)

unfoldable pub heartbeat : List (ℕ × ℕ) → List (ℕ × ℕ) → Activity
heartbeat previous current =
    let found = deltas previous current in
    record {
      calls = total_delta found;
      imports = length found;
      busiest = take 4 (sort_by (λ d. 2 ^ 64 - d.1) found);
    }

-- `quietTicks` and `dumped`; a turn also tells whether it prints the threads' stacks.
pub record Watch : Type 0 where
  pub quiet_ticks : ℕ
  pub dumped : Bool

unfoldable pub heartbeat_watch : List (ℕ × ℕ) → List (ℕ × ℕ) → Watch → Watch × Bool
heartbeat_watch previous current w =
    let quiet = if length current == length previous then w.quiet_ticks + 1 else 0 in
    let dump = quiet == 3 && not w.dumped in
    (record { quiet_ticks = quiet; dumped = w.dumped || dump }, dump)
