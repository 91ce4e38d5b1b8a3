-- ===== src/Sync/Multiple.antt =====
-- What the waits for several objects report.
use wosrecomp.Base.{ℕ, ◌≡◌, ◌≢◌, false, some, arith}
use wosrecomp.Guest.{load_u32, status_success}
use wosrecomp.Events.{Event, Timeout}
use wosrecomp.Sync.{Kernel, event_at}
use wosrecomp.Sync.Waits.{wait_on_object, wait_all, nt_wait_for_all_objects}
use wosrecomp.Sync.Signals.{wait_on-unsignalled}

-- A WaitAll with a limit on one event that is not signalled returns success, although the wait on
-- that event runs out.
pub nt_wait_for_all_objects-ignores_timeout :
    (k : Kernel) (self handle_array id : ℕ) (e : Event) (n : ℕ)
    → handle_array ≢ 0
    → event_at k (load_u32 k.mem handle_array) ≡ some (id, e)
    → e.signalled ≡ false
    → (k' : Kernel) × (wait_on_object k self (load_u32 k.mem handle_array) (Timeout.millis n)
        ≡ some (false, k'))
      × (nt_wait_for_all_objects k self 1 handle_array (Timeout.millis n)
          ≡ some (status_success, k'))
unfolding nt_wait_for_all_objects wait_all
nt_wait_for_all_objects-ignores_timeout k self handle_array id e n set h off =
    let (k', failed) = wait_on-unsignalled k self (load_u32 k.mem handle_array) id e n h off in
    (k', failed, ground (arith, failed))
