-- ===== src/Apc/Waits.antt =====
-- The wait imports as a whole, WoSRecomp/kernel/sync.cpp: first the pending calls, then the wait. A
-- call that blocks is none.
use wosrecomp.Base.{
  ℕ, ◌≡◌, ◌≢◌, Bool, if◌then◌else◌, Option, none, some, List, [], ◌⊎◌, inl, inr, refl, ap, ◌∙◌,
  false, Option-cases,
}
use wosrecomp.Guest.{status_user_apc}
use wosrecomp.Events.{timeout_to_millis}
use wosrecomp.Sync.{Kernel}
use wosrecomp.Sync.Waits.{
  nt_wait_for_single_object, ke_wait_for_single_object, ke_wait_for_multiple_objects,
}
use wosrecomp.Sync.Any.{nt_wait_for_multiple_objects}
use wosrecomp.Apc.{PendingApc, Context, State, Code, alertable_return, deliver_all, complete}
use wosrecomp.Apc.Delivery.{Queues, queued, deliver_all-queues, alertable_return-cases}

-- A wait behind `AlertableReturn`: the registers and the state that it returns with.
unfoldable pub wait_unless_back :
    Bool × Context × State → (Kernel → Option (ℕ × Kernel)) → Option (Context × State)
wait_unless_back (back, ctx, s) wait = if back then some (ctx, s) else elim (wait s.kernel) [
  | none ↦ none
  | some (status, k) ↦ some (record ctx { r3 = status }, record s { kernel = k })
]

unfoldable pub alertable_wait :
    Code → Bool → Context → State → ℕ → (Kernel → Option (ℕ × Kernel)) → Option (Context × State)
alertable_wait code enabled ctx s alertable wait =
    wait_unless_back (alertable_return code enabled ctx s alertable) wait

module _ (code : Code) (enabled : Bool) (ctx : Context) (s : State) (self : ℕ) where
  -- NtWaitForSingleObjectEx(r3 = handle, r5 = alertable, r6 = timeout).
  unfoldable pub nt_wait_for_single_object_ex : ℕ → ℕ → ℕ → Option (Context × State)
  nt_wait_for_single_object_ex handle alertable timeout_ptr =
      alertable_wait code enabled ctx s alertable
        (λ k. nt_wait_for_single_object k self handle (timeout_to_millis k.mem timeout_ptr))

  -- KeWaitForSingleObject(r3 = object, r6 = alertable, r7 = timeout).
  unfoldable pub ke_wait_for_single_object_ex : ℕ → ℕ → ℕ → Option (Context × State)
  ke_wait_for_single_object_ex object alertable timeout_ptr =
      alertable_wait code enabled ctx s alertable
        (λ k. ke_wait_for_single_object k self object (timeout_to_millis k.mem timeout_ptr))

  -- KeWaitForMultipleObjects(r3 = count, r4 = objects, r8 = alertable).
  unfoldable pub ke_wait_for_multiple_objects_ex : ℕ → ℕ → ℕ → Option (Context × State)
  ke_wait_for_multiple_objects_ex count object_array alertable =
      alertable_wait code enabled ctx s alertable
        (λ k. ke_wait_for_multiple_objects k self count object_array)

  -- NtWaitForMultipleObjectsEx(r3 = count, r4 = handles, r5 = type, r7 = alertable, r8 = timeout).
  unfoldable pub nt_wait_for_multiple_objects_ex : ℕ → ℕ → ℕ → ℕ → ℕ → Option (Context × State)
  nt_wait_for_multiple_objects_ex count handle_array wait_type alertable timeout_ptr =
      alertable_wait code enabled ctx s alertable (λ k.
        nt_wait_for_multiple_objects k self count handle_array wait_type
          (timeout_to_millis k.mem timeout_ptr))

-- What a wait ends with: its status in r3 and the kernel that it leaves; a wait that blocks is
-- none.
abbrev pub ended : Context → State → Option (ℕ × Kernel) → Option (Context × State)
ended ctx s none = none
ended ctx s (some (status, k)) = some (record ctx { r3 = status }, record s { kernel = k })

module _ (code : Code) (more : ℕ → ℕ → List PendingApc) (q : Queues code more)
    (quiet : (handle : ℕ) → more complete handle ≡ []) (enabled : Bool) (ctx : Context) (k : Kernel)
    (queue : List PendingApc) (alertable : ℕ) where
  abbrev pub before : State
  before = record { kernel = k; apc_queue = queue }

  -- What a wait import does with the pending calls: with none it waits. Otherwise the queue holds
  -- what their routines queue; then an alertable wait returns STATUS_USER_APC, and any other waits.
  abbrev pub Delivers : (Kernel → Option (ℕ × Kernel)) → Option (Context × State) → Type 0
  Delivers wait r =
      ((queue ≡ []) × (r ≡ ended ctx before (wait k)))
      ⊎ ((queue ≢ [])
          × (s' : State) × (s'.apc_queue ≡ queued code more queue)
          × (((alertable ≢ 0) × (r ≡ some (record ctx { r3 = status_user_apc }, s')))
              ⊎ ((alertable ≡ 0) × (r ≡ ended ctx s' (wait s'.kernel)))))

  ended-eq :
      (s : State) (wait : Kernel → Option (ℕ × Kernel))
      → wait_unless_back (false, ctx, s) wait ≡ ended ctx s (wait s.kernel)
  unfolding wait_unless_back
  ended-eq s wait = elim (Option-cases (wait s.kernel)) [
    | inl e ↦ rw e refl
    | inr (r, e) ↦ rw e refl
  ]

  alertable_wait-Delivers :
      (wait : Kernel → Option (ℕ × Kernel))
      → Delivers wait (alertable_wait code enabled ctx before alertable wait)
  unfolding alertable_wait wait_unless_back
  alertable_wait-Delivers wait =
      let s' = deliver_all code enabled ctx queue (record { kernel = k; apc_queue = [] }) in
      let runs =
        deliver_all-queues code more q quiet enabled ctx queue
          (record { kernel = k; apc_queue = [] }) in
      elim (alertable_return-cases code enabled ctx k alertable queue) [
        | inl (empty, e) ↦ inl (
          empty,
          ap (λ (r : Bool × Context × State). wait_unless_back r wait) e ∙ ended-eq before wait,
        )
        | inr (inl (full, plain, e)) ↦ inr (
          full,
          s',
          runs,
          inr (
            plain,
            ap (λ (r : Bool × Context × State). wait_unless_back r wait) e ∙ ended-eq s' wait,
          ),
        )
        | inr (inr (full, set, e)) ↦ inr (
          full,
          s',
          runs,
          inl (set, ap (λ (r : Bool × Context × State). wait_unless_back r wait) e),
        )
      ]

  -- Where every routine queues calls that depend on its address and argument only, and the
  -- completion routine none, each of the four wait imports, with any queue of pending calls: with
  -- an empty queue it waits, and returns what the wait does. Otherwise it goes on from a state whose
  -- queue holds exactly the calls that the routines of the old queue queue, in its order: an import
  -- called as alertable returns that state at once, with STATUS_USER_APC in r3 and the other
  -- registers as they were, and any other waits on that state's kernel.
  pub wait_imports-Deliver :
      (self handle timeout_ptr count array wait_type : ℕ)
      → Delivers
          (λ k. nt_wait_for_single_object k self handle (timeout_to_millis k.mem timeout_ptr))
          (nt_wait_for_single_object_ex code enabled ctx before self handle alertable timeout_ptr)
        × Delivers
            (λ k. ke_wait_for_single_object k self handle (timeout_to_millis k.mem timeout_ptr))
            (ke_wait_for_single_object_ex code enabled ctx before self handle alertable timeout_ptr)
        × Delivers
            (λ k. ke_wait_for_multiple_objects k self count array)
            (ke_wait_for_multiple_objects_ex code enabled ctx before self count array alertable)
        × Delivers
            (λ k.
              nt_wait_for_multiple_objects k self count array wait_type
                (timeout_to_millis k.mem timeout_ptr))
            (nt_wait_for_multiple_objects_ex code enabled ctx before self count array wait_type
              alertable timeout_ptr)
  unfolding nt_wait_for_single_object_ex ke_wait_for_single_object_ex
      ke_wait_for_multiple_objects_ex nt_wait_for_multiple_objects_ex
  wait_imports-Deliver self handle timeout_ptr count array wait_type = (
    alertable_wait-Delivers
        (λ k. nt_wait_for_single_object k self handle (timeout_to_millis k.mem timeout_ptr)),
    alertable_wait-Delivers
        (λ k. ke_wait_for_single_object k self handle (timeout_to_millis k.mem timeout_ptr)),
    alertable_wait-Delivers (λ k. ke_wait_for_multiple_objects k self count array),
    alertable_wait-Delivers (λ k.
        nt_wait_for_multiple_objects k self count array wait_type
          (timeout_to_millis k.mem timeout_ptr)),
  )
