-- ===== src/Sync/Signals.antt =====
-- A signal reaches the thread that waits for it.
use wosrecomp.Base.{
  ℕ, zero, suc, ◌+◌, ◌≡◌, ◌≢◌, refl, ap, sym, ◌∙◌, true, false, Option, none, some, List, [], ◌∷◌,
  length, get_elem?, get_elem?-snoc, find-put_self, arith, u32, u64,
}
use wosrecomp.Guest.{status_success}
use wosrecomp.Events.{Event, Timeout, signal, end_wait, begin_wait, consume, clear}
use wosrecomp.Objects.{
  Body, Object, Objects, event, mutant, thread, file, plain, object_from_any, object_from_handle,
  object_from_guest_ptr, or_else, register_object_at, body_of, body_at, set_body, update_body,
}
use wosrecomp.Sync.{
  Kernel, event_body, event_named, event_at, replace, nt_set_event, nt_pulse_event, embedded_event,
  adopt, adopted, is_none,
}
use wosrecomp.Sync.Waits.{wait_event, wait_on_object}

pub get_elem?-set_body :
    (store : List Object) (id : ℕ) (b b' : Body)
    → body_of (get_elem? store id) ≡ some b
    → body_of (get_elem? (set_body store id b') id) ≡ some b'
unfolding body_of set_body
get_elem?-set_body [] id b b' e = ground (arith, e)
get_elem?-set_body (o ∷ store) zero b b' e = refl
get_elem?-set_body (o ∷ store) (suc id) b b' e = get_elem?-set_body store id b b' e

event_body-inv :
    (id id' : ℕ) (b : Option Body) (e : Event)
    → event_body id b ≡ some (id', e)
    → (id ≡ id') × (b ≡ some (event e))
unfolding event_body
event_body-inv id id' none e h = ground (arith, h)
event_body-inv id id' (some (event e')) e h = ground (arith, h)
event_body-inv id id' (some (mutant m)) e h = ground (arith, h)
event_body-inv id id' (some (thread t)) e h = ground (arith, h)
event_body-inv id id' (some (file f)) e h = ground (arith, h)
event_body-inv id id' (some plain) e h = ground (arith, h)

event_named-inv :
    (os : Objects) (o : Option ℕ) (id : ℕ) (e : Event)
    → event_named os o ≡ some (id, e)
    → (o ≡ some id) × (body_at os id ≡ some (event e))
unfolding event_named
event_named-inv os none id e h = ground (arith, h)
event_named-inv os (some j) id e h =
    let (same, here) = event_body-inv j id (body_at os j) e h in
    (ap some same, ap (body_at os) (sym same) ∙ here)

-- A pointer to an event still names it after its replacement by another state.
pub event_at-replace :
    (k : Kernel) (ptr id : ℕ) (e e' : Event)
    → event_at k ptr ≡ some (id, e)
    → event_at (replace k id (event e')) ptr ≡ some (id, e')
unfolding event_at replace update_body object_from_any object_from_handle object_from_guest_ptr
    event_named body_at event_body
event_at-replace k ptr id e e' h =
    let (named, here) = event_named-inv k.objects (object_from_any k.objects ptr) id e h in
    ap (event_named (update_body k.objects id (event e'))) named
    ∙ ap (event_body id) (get_elem?-set_body k.objects.store id (event e) (event e') here)

-- A wait on an event, by its state.
wait_on-event :
    (k : Kernel) (self ptr id : ℕ) (e : Event) (timeout : Timeout)
    → event_at k ptr ≡ some (id, e)
    → wait_on_object k self ptr timeout ≡ wait_event k id e timeout
unfolding wait_on_object
wait_on-event k self ptr id e timeout h = ground (arith, h)

wait_event-signalled :
    (k : Kernel) (id : ℕ) (e : Event) (timeout : Timeout)
    → e.signalled ≡ true
    → wait_event k id e timeout ≡ some (true, replace k id (event (consume (begin_wait e))))
unfolding wait_event end_wait begin_wait
wait_event-signalled k id e timeout on = rw on refl

-- A wait on a signalled event is satisfied at once, whatever its limit, and leaves the event
-- signalled only if it is manual-reset.
pub wait_on-signalled :
    (k : Kernel) (self ptr id : ℕ) (e : Event) (timeout : Timeout)
    → event_at k ptr ≡ some (id, e)
    → e.signalled ≡ true
    → (k' : Kernel) × (e' : Event) × (wait_on_object k self ptr timeout ≡ some (true, k'))
      × (event_at k' ptr ≡ some (id, e'))
      × (e'.signalled ≡ e.manual_reset)
      × (e'.manual_reset ≡ e.manual_reset)
unfolding consume begin_wait
wait_on-signalled k self ptr id e timeout h on = (
  replace k id (event (consume (begin_wait e))),
  consume (begin_wait e),
  wait_on-event k self ptr id e timeout h ∙ wait_event-signalled k id e timeout on,
  event_at-replace k ptr id e (consume (begin_wait e)) h,
  ground (arith, on),
  refl,
)

-- How a wait that runs out leaves an event.
abbrev timed_out : Event → Event
timed_out e = record e { waits = u64 (e.waits + 1); timeouts = u64 (e.timeouts + 1) }

wait_event-unsignalled :
    (k : Kernel) (id : ℕ) (e : Event) (n : ℕ)
    → e.signalled ≡ false
    → wait_event k id e (Timeout.millis n) ≡ some (false, replace k id (event (timed_out e)))
unfolding wait_event end_wait begin_wait
wait_event-unsignalled k id e n off = rw off refl

-- A wait with a limit on an event that is not signalled runs out.
pub wait_on-unsignalled :
    (k : Kernel) (self ptr id : ℕ) (e : Event) (n : ℕ)
    → event_at k ptr ≡ some (id, e)
    → e.signalled ≡ false
    → (k' : Kernel) × (wait_on_object k self ptr (Timeout.millis n) ≡ some (false, k'))
wait_on-unsignalled k self ptr id e n h off = (
  replace k id (event (timed_out e)),
  wait_on-event k self ptr id e (Timeout.millis n) h ∙ wait_event-unsignalled k id e n off,
)

nt_set_event-eq :
    (k : Kernel) (lr handle id : ℕ) (e : Event)
    → event_at k handle ≡ some (id, e)
    → nt_set_event k lr handle ≡ (status_success, replace k id (event (signal e (u32 lr))))
unfolding nt_set_event
nt_set_event-eq k lr handle id e h = rw (h, nt_set_event) refl

nt_pulse_event-eq :
    (k : Kernel) (handle id : ℕ) (e : Event)
    → event_at k handle ≡ some (id, e)
    → nt_pulse_event k handle ≡ (status_success, replace k id (event (clear (signal e 0))))
unfolding nt_pulse_event
nt_pulse_event-eq k handle id e h = rw (h, nt_pulse_event) refl

signal-on : (e : Event) (site : ℕ) → (signal e site).signalled ≡ true
unfolding signal
signal-on e site = refl

signal-manual : (e : Event) (site : ℕ) → (signal e site).manual_reset ≡ e.manual_reset
unfolding signal
signal-manual e site = refl

clear-off : (e : Event) → (clear e).signalled ≡ false
unfolding clear
clear-off e = refl

-- NtSetEvent on an auto-reset event succeeds and lets the next wait on it through, of any limit;
-- where no other call comes between, the wait after that one, with a limit, runs out.
pub nt_set_event-once :
    (k : Kernel) (lr self handle id : ℕ) (e : Event) (timeout : Timeout) (n : ℕ)
    → event_at k handle ≡ some (id, e)
    → e.manual_reset ≡ false
    → (nt_set_event k lr handle).0 ≡ status_success
      × ((k' k'' : Kernel) × (wait_on_object (nt_set_event k lr handle).1 self handle timeout
            ≡ some (true, k'))
          × (wait_on_object k' self handle (Timeout.millis n) ≡ some (false, k'')))
nt_set_event-once k lr self handle id e timeout n h auto =
    let call = nt_set_event-eq k lr handle id e h in
    let on =
      wait_on-signalled (nt_set_event k lr handle).1 self handle id (signal e (u32 lr)) timeout
        (rw call (event_at-replace k handle id e (signal e (u32 lr)) h)) (signal-on e (u32 lr)) in
    let k' : Kernel = on.0 in
    let off =
      wait_on-unsignalled k' self handle id on.1 n on.3 (on.4 ∙ signal-manual e (u32 lr) ∙ auto) in
    (ap (λ (r : ℕ × Kernel). r.0) call, (k', off.0, on.2, off.1))

-- NtPulseEvent wakes nobody who looks at the event after it: a wait with a limit runs out.
pub nt_pulse_event-wakes_none :
    (k : Kernel) (self handle id : ℕ) (e : Event) (n : ℕ)
    → event_at k handle ≡ some (id, e)
    → (k' : Kernel) × (wait_on_object (nt_pulse_event k handle).1 self handle (Timeout.millis n)
        ≡ some (false, k'))
nt_pulse_event-wakes_none k self handle id e n h =
    let call = nt_pulse_event-eq k handle id e h in
    wait_on-unsignalled (nt_pulse_event k handle).1 self handle id (clear (signal e 0)) n
      (rw call (event_at-replace k handle id e (clear (signal e 0)) h)) (clear-off (signal e 0))

find_none-put :
    (os : Objects) (ptr : ℕ) (b : Body)
    → object_from_any os ptr ≡ none
    → object_from_any (register_object_at os ptr b) ptr ≡ some (length os.store)
unfolding object_from_any object_from_handle object_from_guest_ptr or_else register_object_at
find_none-put os ptr b unknown =
    ground (arith, unknown, find-put_self os.by_guest_ptr ptr (length os.store))

event_at-adopt :
    (k : Kernel) (ptr : ℕ)
    → object_from_any k.objects ptr ≡ none
    → event_at (adopt k ptr) ptr ≡ some (length k.objects.store, adopted k)
unfolding event_at event_named event_body body_at body_of register_object_at adopt
event_at-adopt k ptr unknown =
    let b : Body = event (adopted k) in
    let os : Objects = register_object_at k.objects ptr b in
    ap (event_named os) (find_none-put k.objects ptr b unknown)
    ∙ ap (λ o. event_body (length k.objects.store) (body_of o))
        (get_elem?-snoc k.objects.store (record { handle = 0; guest_ptr = ptr; body = b }))

-- At an address other than 0 that names nothing, an event is adopted at the first touch: it is
-- made, manual-reset and not signalled, and from then on the address names it.
pub embedded_event-adopts :
    (k : Kernel) (ptr : ℕ)
    → ptr ≢ 0
    → object_from_any k.objects ptr ≡ none
    → (embedded_event k ptr ≡ (some (length k.objects.store, adopted k), adopt k ptr))
      × (event_at (embedded_event k ptr).1 ptr ≡ some (length k.objects.store, adopted k))
unfolding embedded_event is_none
embedded_event-adopts k ptr set unknown = ground (arith, unknown, event_at-adopt k ptr unknown)
