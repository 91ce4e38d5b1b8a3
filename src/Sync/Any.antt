-- ===== src/Sync/Any.antt =====
-- `WaitAnyOf` at one moment, WoSRecomp/kernel/sync.cpp: the events of the array are looked up, then
-- tried in turn; with none signalled the wait runs out, or blocks where it has no limit. How it
-- sleeps and wakes is the subject of WaitAny.
use wosrecomp.Base.{
  ℕ, zero, suc, ◌+◌, ◌≡◌, ◌≢◌, ◌≤◌, ◌⊎◌, OnSome, OnSome-some, refl, Bool, true, false, Bool-cases,
  inl, inr, if◌then◌else◌, ltb, ◌==◌, Option, none, some, List, [], ◌∷◌, ◌++◌, length, All, arith,
  u64, ap, sym, ◌∙◌,
}
use wosrecomp.Guest.{load_u32, status_success, status_timeout}
use wosrecomp.Events.{Event, Timeout, begin_wait, consume}
use wosrecomp.Objects.{event, body_at}
use wosrecomp.Sync.{Kernel, event_body, event_or_embedded, replace}
use wosrecomp.Sync.Waits.{nt_wait_for_all_objects}

-- Counting a wait, or one that ran out, on the event `id`.
unfoldable pub change : Kernel → (Event → Event) → Option (ℕ × Event) → Kernel
change k f none = k
change k f (some (id, e)) = replace k id (event (f e))

unfoldable pub id_of : Option (ℕ × Event) → Option ℕ
id_of none = none
id_of (some (id, e)) = some id

-- The events of `n` handles from `handle_array` on.
unfoldable pub collect : ℕ → Kernel → ℕ → List (Option ℕ) × Kernel
collect zero k handle_array = ([], k)
collect (suc n) k handle_array =
    let (r, k') = event_or_embedded k (load_u32 k.mem handle_array) in
    let (ids, k'') = collect n (change k' begin_wait r) (handle_array + 4) in (id_of r ∷ ids, k'')

unfoldable pub event_of : Kernel → Option ℕ → Option (ℕ × Event)
event_of k none = none
event_of k (some id) = event_body id (body_at k.objects id)

unfoldable pub signalled_event : Option (ℕ × Event) → Bool
signalled_event none = false
signalled_event (some (id, e)) = e.signalled

abbrev pub is_signalled : Kernel → Option ℕ → Bool
is_signalled k o = signalled_event (event_of k o)

-- The first of the events that `TryConsume` takes, with its index.
unfoldable pub try_any : List (Option ℕ) → ℕ → Kernel → Option (ℕ × Kernel)
try_any [] i k = none
try_any (o ∷ ids) i k =
    let rest = try_any ids (i + 1) k in
    if is_signalled k o then some (i, change k consume (event_of k o)) else rest

abbrev pub run_out : Event → Event
run_out e = record e { timeouts = u64 (e.timeouts + 1) }

unfoldable pub run_out_all : List (Option ℕ) → Kernel → Kernel
run_out_all [] k = k
run_out_all (o ∷ ids) k = run_out_all ids (change k run_out (event_of k o))

-- `WaitAnyOf`: the index of the event that satisfied the wait, if one did.
unfoldable pub any_or_run_out :
    List (Option ℕ) → Kernel → Timeout → Option (ℕ × Kernel) → Option (Option ℕ × Kernel)
any_or_run_out ids k timeout (some (i, k')) = some (some i, k')
any_or_run_out ids k Timeout.infinite none = none
any_or_run_out ids k (Timeout.millis n) none = some (none, run_out_all ids k)

unfoldable pub wait_any_of : Kernel → ℕ → ℕ → Timeout → Option (Option ℕ × Kernel)
wait_any_of k handle_array count timeout =
    let (ids, k') = collect count k handle_array in any_or_run_out ids k' timeout (try_any ids 0 k')

abbrev pub index_status : Option ℕ → ℕ
index_status none = status_timeout
index_status (some i) = i

unfoldable pub any_status : Option (Option ℕ × Kernel) → Option (ℕ × Kernel)
any_status none = none
any_status (some (o, k)) = some (index_status o, k)

-- NtWaitForMultipleObjectsEx(r3 = count, r4 = handles, r5 = 0 for WaitAll), for a call that is not
-- alerted.
unfoldable pub nt_wait_for_multiple_objects : Kernel → ℕ → ℕ → ℕ → ℕ → Timeout → Option (ℕ × Kernel)
nt_wait_for_multiple_objects k self count handle_array wait_type timeout =
    let any = wait_any_of k handle_array (if ltb 64 count then 64 else count) timeout in
    if count == 0
    then some (status_success, k)
    else if handle_array == 0
    then some (status_success, k)
    else if wait_type == 0
    then nt_wait_for_all_objects k self count handle_array timeout
    else any_status any

-- Where trying the events in turn, from the number `i` on, takes one: it is signalled and none
-- before it is.
try_any-first :
    (ids : List (Option ℕ)) (i j : ℕ) (k k' : Kernel)
    → try_any ids i k ≡ some (j, k')
    → (before : List (Option ℕ)) × (o : Option ℕ) × (after : List (Option ℕ)) × (ids
        ≡ before ++ o ∷ after)
      × (j ≡ i + length before)
      × (is_signalled k o ≡ true)
      × All (λ o. is_signalled k o ≡ false) before
unfolding try_any
try_any-first [] i j k k' e = ground (arith, e)
try_any-first (o ∷ ids) i j k k' e = elim (Bool-cases (is_signalled k o)) [
  | inl on ↦ ([], o, ids, refl, ground (arith, e, on), on, tt)
  | inr off ↦
      let (before, o', after, split, at, on, none_before) =
        try_any-first ids (i + 1) j k k' (rw off at e) in
      (o ∷ before, o', after, ap (λ xs. o ∷ xs) split, omega (arith, at), on, (off, none_before))
]

try_any-none :
    (ids : List (Option ℕ)) (i : ℕ) (k : Kernel)
    → try_any ids i k ≡ none
    → All (λ o. is_signalled k o ≡ false) ids
unfolding try_any
try_any-none [] i k e = tt
try_any-none (o ∷ ids) i k e = elim (Bool-cases (is_signalled k o)) [
  | inl on ↦ ground (arith, e, on)
  | inr off ↦ (off, try_any-none ids (i + 1) k (rw off at e))
]

-- What a WaitAny says of the events of its array, as they stand when it tries them: the number of
-- the first that is signalled, or that none is.
abbrev pub Tells : Kernel → List (Option ℕ) → ℕ → Type 0
Tells k ids status =
    ((before : List (Option ℕ)) × (o : Option ℕ) × (after : List (Option ℕ)) × (ids
        ≡ before ++ o ∷ after)
      × (status ≡ length before)
      × (is_signalled k o ≡ true)
      × All (λ o. is_signalled k o ≡ false) before)
    ⊎ ((status ≡ status_timeout) × All (λ o. is_signalled k o ≡ false) ids)

any_or_run_out-Tells :
    (ids : List (Option ℕ)) (k : Kernel) (timeout : Timeout) (o : Option (ℕ × Kernel))
    → try_any ids 0 k ≡ o
    → OnSome (λ r. Tells k ids r.0) (any_status (any_or_run_out ids k timeout o))
unfolding any_or_run_out any_status
any_or_run_out-Tells ids k timeout (some (i, k')) e =
    let (before, o, after, split, at, on, none_before) = try_any-first ids 0 i k k' e in
    inl (before, o, after, split, omega (arith, at), on, none_before)
any_or_run_out-Tells ids k Timeout.infinite none e = tt
any_or_run_out-Tells ids k (Timeout.millis n) none e = inr (refl, try_any-none ids 0 k e)

wait_any_of-Tells :
    (k : Kernel) (handle_array count : ℕ) (timeout : Timeout)
    → let c = collect count k handle_array in
      OnSome (λ r. Tells c.1 c.0 r.0) (any_status (wait_any_of k handle_array count timeout))
unfolding wait_any_of
wait_any_of-Tells k handle_array count timeout =
    let c = collect count k handle_array in
    any_or_run_out-Tells c.0 c.1 timeout (try_any c.0 0 c.1) refl

-- An NtWaitForMultipleObjectsEx for any of several objects, not alerted, with a count and an array
-- that are not 0 and on at most 64 handles, when it returns: the status is the number of the first
-- event of the array that is signalled once all handles have been looked up, or STATUS_TIMEOUT
-- where none is.
pub nt_wait_for_multiple_objects-Tells :
    (k k' : Kernel) (self count handle_array wait_type status : ℕ) (timeout : Timeout)
    → count ≢ 0
    → handle_array ≢ 0
    → wait_type ≢ 0
    → count ≤ 64
    → nt_wait_for_multiple_objects k self count handle_array wait_type timeout ≡ some (status, k')
    → let c = collect count k handle_array in Tells c.1 c.0 status
unfolding nt_wait_for_multiple_objects
nt_wait_for_multiple_objects-Tells k k' self count handle_array wait_type status timeout some_asked
      set any small e =
    let c = collect count k handle_array in
    let here : nt_wait_for_multiple_objects k self count handle_array wait_type timeout
        ≡ any_status (wait_any_of k handle_array count timeout) =
      ground arith in
    OnSome-some (λ r. Tells c.1 c.0 r.0) (any_status (wait_any_of k handle_array count timeout))
      (status, k') (wait_any_of-Tells k handle_array count timeout) (sym here ∙ e)
