-- ===== src/Tests/Reports.antt =====
-- The import log and the table of call sites on a few calls.
use wosrecomp.Base.{ℕ, ◌≤◌, ◌≡◌, ◌⊎◌, List, [], ◌∷◌, length, arith, take, ◌^◌, ◌↔◌}
use wosrecomp.Census.{
  SiteCall, log_import_calls, snapshot_import_counts, heartbeat, empty_log, log_call_sites,
}
use wosrecomp.Census.Imports.{first_calls, calls_of, without}
use wosrecomp.Census.Heartbeat.{called}
use wosrecomp.Census.Busiest.{Falling, heartbeat-Tells}
use mathlib.Core.List.{Memᴰ}
use wosrecomp.Census.Sites.{calls_from, like_call, told, log_call_sites-Tells}

heartbeat-Tells_example :
    let before = log_import_calls (7 ∷ 3 ∷ []) empty_log in
    let h =
      heartbeat
        (snapshot_import_counts before)
        (snapshot_import_counts (log_import_calls (7 ∷ 5 ∷ 7 ∷ []) before)) in
    let found : List (ℕ × ℕ) = (7, 2) ∷ (5, 1) ∷ [] in
    (h.calls ≡ 3)
    × (h.imports ≡ 2)
    × (rows : List (ℕ × ℕ)) × Falling (2 ^ 64) rows
    × (length rows ≡ 2)
    × ((e : ℕ × ℕ) → Memᴰ e rows ↔ Memᴰ e found)
    × (h.busiest ≡ take 4 rows)
unfolding called first_calls without calls_of
heartbeat-Tells_example = heartbeat-Tells (7 ∷ 3 ∷ []) (7 ∷ 5 ∷ 7 ∷ []) (omega arith)

abbrev delay_call : SiteCall
delay_call = record { name = 7; call_site = 0x82B1_A684; detail = 0 }

abbrev wait_call : SiteCall
wait_call = record { name = 3; call_site = 0x82AC_ED10; detail = 30 }

log_call_sites-Tells_example :
    let rows = log_call_sites (delay_call ∷ wait_call ∷ delay_call ∷ []) [] in
    (length rows ≤ 48)
    × ((told delay_call rows ≡ 2) ⊎ ((told delay_call rows ≡ 0) × (length rows ≡ 48)))
unfolding calls_from like_call
log_call_sites-Tells_example =
    log_call_sites-Tells (delay_call ∷ wait_call ∷ delay_call ∷ []) delay_call (omega arith)
