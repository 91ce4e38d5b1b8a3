-- ===== src/Threads/Named.antt =====
-- What a handle of a thread names, before and after the thread is resumed, and what the waits on it
-- say.
use wosrecomp.Base.{
  ℕ, Bool, ◌⊎◌, if◌then◌else◌, ◌≡◌, refl, ap, sym, ◌∙◌, true, false, Option, none, some, arith,
  Bool-cases, inl, inr,
}
use wosrecomp.Guest.{status_success, status_timeout}
use wosrecomp.Events.{Timeout}
use wosrecomp.Objects.{
  Body, Objects, event, mutant, thread, file, plain, object_from_any, object_from_handle,
  object_from_guest_ptr, body_at, update_body,
}
use wosrecomp.Sync.{
  Kernel, event_body, event_named, event_at, mutant_body, mutant_named, mutant_at, replace,
  store_out, embedded_event, is_none,
}
use wosrecomp.Sync.Signals.{get_elem?-set_body}
use wosrecomp.Sync.Waits.{
  wait_on_object, wait_thread, nt_wait_for_single_object, ke_wait_for_single_object,
}
use wosrecomp.Threads.{Thread, release, wait_for_exit}
use wosrecomp.Threads.Calls.{
  thread_body, thread_named, thread_at, nt_resume_thread, ke_resume_thread, wait_for_thread_exit,
}

thread_body-inv :
    (id id' : ℕ) (b : Option Body) (t : Thread)
    → thread_body id b ≡ some (id', t)
    → (id ≡ id') × (b ≡ some (thread t))
unfolding thread_body
thread_body-inv id id' none t h = ground (arith, h)
thread_body-inv id id' (some (event e)) t h = ground (arith, h)
thread_body-inv id id' (some (mutant m)) t h = ground (arith, h)
thread_body-inv id id' (some (thread t')) t h = ground (arith, h)
thread_body-inv id id' (some (file f)) t h = ground (arith, h)
thread_body-inv id id' (some plain) t h = ground (arith, h)

thread_named-inv :
    (os : Objects) (o : Option ℕ) (id : ℕ) (t : Thread)
    → thread_named os o ≡ some (id, t)
    → (o ≡ some id) × (body_at os id ≡ some (thread t))
unfolding thread_named
thread_named-inv os none id t h = ground (arith, h)
thread_named-inv os (some j) id t h =
    let (same, here) = thread_body-inv j id (body_at os j) t h in
    (ap some same, ap (body_at os) (sym same) ∙ here)

module _ (k : Kernel) (ptr id : ℕ) (t : Thread) (h : thread_at k ptr ≡ some (id, t)) where
  named : (object_from_any k.objects ptr ≡ some id) × (body_at k.objects id ≡ some (thread t))
  unfolding thread_at
  named = thread_named-inv k.objects (object_from_any k.objects ptr) id t h

  pub thread_at-replace : (t' : Thread) → thread_at (replace k id (thread t')) ptr ≡ some (id, t')
  unfolding thread_at replace update_body object_from_any object_from_handle object_from_guest_ptr
      thread_named body_at thread_body
  thread_at-replace t' =
      ap (thread_named (update_body k.objects id (thread t'))) named.0
      ∙ ap (thread_body id) (get_elem?-set_body k.objects.store id (thread t) (thread t') named.1)

  no_event : event_at k ptr ≡ none
  unfolding event_at event_named event_body
  no_event = ap (event_named k.objects) named.0 ∙ ap (event_body id) named.1

  no_mutant : mutant_at k ptr ≡ none
  unfolding mutant_at mutant_named mutant_body
  no_mutant = ap (mutant_named k.objects) named.0 ∙ ap (mutant_body id) named.1

  no_embedded : embedded_event k ptr ≡ (none, k)
  unfolding embedded_event is_none
  no_embedded = ground (arith, named.0, no_event)

  wait_on_object-thread :
      (self : ℕ) (timeout : Timeout) → wait_on_object k self ptr timeout ≡ some (true, k)
  unfolding wait_on_object
  wait_on_object-thread self timeout = ground (arith, no_event, no_mutant, no_embedded)

  nt_wait-thread :
      (self : ℕ) (timeout : Timeout)
      → nt_wait_for_single_object k self ptr timeout ≡ wait_thread k ptr timeout
  unfolding nt_wait_for_single_object
  nt_wait-thread self timeout = ground (arith, no_event, no_mutant)

  wait_thread-eq :
      (timeout : Timeout) (b : Bool)
      → wait_for_exit t timeout ≡ some b
      → wait_thread k ptr timeout ≡ some (if b then status_success else status_timeout, k)
  unfolding wait_thread wait_for_thread_exit
  wait_thread-eq timeout b e = ground (arith, h, e)

  nt_resume_thread-eq :
      (suspend_count : ℕ)
      → nt_resume_thread k ptr suspend_count
        ≡ (status_success, replace (store_out k suspend_count 1) id (thread (release t)))
  unfolding nt_resume_thread
  nt_resume_thread-eq suspend_count = rw (h, nt_resume_thread) refl

  ke_resume_thread-eq : ke_resume_thread k ptr ≡ (1, replace k id (thread (release t)))
  unfolding ke_resume_thread
  ke_resume_thread-eq = rw (h, ke_resume_thread) refl

  store_out-objects : (out value : ℕ) → (store_out k out value).objects ≡ k.objects
  unfolding store_out
  store_out-objects out value = ground arith

  thread_at-store_out :
      (out value : ℕ)
      → thread_at (replace (store_out k out value) id (thread (release t))) ptr
        ≡ thread_at (replace k id (thread (release t))) ptr
  unfolding thread_at replace
  thread_at-store_out out value =
      ap
        (λ os.
          thread_named (update_body os id (thread (release t)))
            (object_from_any (update_body os id (thread (release t))) ptr))
        (store_out-objects out value)

  -- NtResumeThread on a thread succeeds and KeResumeThread returns 1, the previous suspend count,
  -- and after either the handle or pointer names the thread, released.
  pub resume-releases :
      (suspend_count : ℕ)
      → ((nt_resume_thread k ptr suspend_count).0 ≡ status_success)
        × ((ke_resume_thread k ptr).0 ≡ 1)
        × (thread_at (nt_resume_thread k ptr suspend_count).1 ptr ≡ some (id, release t))
        × (thread_at (ke_resume_thread k ptr).1 ptr ≡ some (id, release t))
  resume-releases suspend_count =
      rw (nt_resume_thread-eq suspend_count, ke_resume_thread-eq)
        (
          refl,
          refl,
          thread_at-store_out suspend_count 1 ∙ thread_at-replace (release t),
          thread_at-replace (release t),
        )

  -- A wait with a limit on the handle of a thread that has not finished: NtWaitForSingleObjectEx
  -- says that it ran out, KeWaitForSingleObject that it was satisfied.
  pub unfinished_waits :
      (self n : ℕ)
      → t.finished ≡ false
      → (nt_wait_for_single_object k self ptr (Timeout.millis n) ≡ some (status_timeout, k))
        × (ke_wait_for_single_object k self ptr (Timeout.millis n) ≡ some (status_success, k))
  unfolding ke_wait_for_single_object wait_for_exit
  unfinished_waits self n off = (
    nt_wait-thread self (Timeout.millis n)
        ∙ wait_thread-eq (Timeout.millis n) false (ground (arith, off)),
    ground (arith, wait_on_object-thread self (Timeout.millis n)),
  )

  -- NtWaitForSingleObjectEx on the handle of a thread succeeds, whatever its limit, once the thread
  -- has finished, and without a limit it does not return before.
  pub nt_wait_for_single_object-exits :
      (self : ℕ) (timeout : Timeout)
      → ((t.finished ≡ true)
          × (nt_wait_for_single_object k self ptr timeout ≡ some (status_success, k)))
        ⊎ ((t.finished ≡ false) × (nt_wait_for_single_object k self ptr Timeout.infinite ≡ none))
  unfolding wait_for_exit wait_thread wait_for_thread_exit
  nt_wait_for_single_object-exits self timeout = elim (Bool-cases t.finished) [
    | inl on ↦
        inl (on, nt_wait-thread self timeout ∙ wait_thread-eq timeout true (ground (arith, on)))
    | inr off ↦ inr (off, nt_wait-thread self Timeout.infinite ∙ ground (arith, h, off))
  ]
