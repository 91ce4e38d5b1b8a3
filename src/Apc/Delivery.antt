-- ===== src/Apc/Delivery.antt =====
-- In what order pending calls are delivered, and what an alertable wait does with them.
use wosrecomp.Base.{
  ℕ, ◌+◌, ◌≡◌, ◌≢◌, ◌⊎◌, inl, inr, refl, ap, sym, ◌∙◌, Bool, true, false, Bool-cases, Option,
  Option-cases, none, some, List, [], ◌∷◌, ◌++◌, ◌==◌, and_not32, arith,
}
use mathlib.Core.List.{append-nil, append_assoc, nil≢cons}
use wosrecomp.Guest.{load_u32, status_user_apc}
use wosrecomp.Sync.{Kernel}
use wosrecomp.Apc.{
  PendingApc, Context, State, Code, complete, request_block, call, is_empty,
  probe_complete_async_request, run_routine, deliver_apc, deliver_all, deliver_pending_apcs,
  alertable_return,
}

-- The calls that a routine at an address queues, by its argument, in code where that is all that
-- matters for the queue.
abbrev pub Queues : Code → (ℕ → ℕ → List PendingApc) → Type 0
Queues code more =
    (addr : ℕ) (f : Context → State → Context × State) (ctx : Context) (s : State)
    → code addr ≡ some f
    → (f ctx s).1.apc_queue ≡ s.apc_queue ++ more addr ctx.r3

-- What the routines of a queue's calls queue, in the order of the queue; a call of an unknown
-- routine is dropped.
abbrev pub queued_if :
    Option (Context → State → Context × State) → List PendingApc → List PendingApc
queued_if none queue = []
queued_if (some f) queue = queue

abbrev pub queued_by : Code → (ℕ → ℕ → List PendingApc) → PendingApc → List PendingApc
queued_by code more apc =
    let target = and_not32 apc.routine 3 in queued_if (code target) (more target apc.context)

abbrev pub queued : Code → (ℕ → ℕ → List PendingApc) → List PendingApc → List PendingApc
queued code more [] = []
queued code more (apc ∷ queue) = queued_by code more apc ++ queued code more queue

module _ (code : Code) (more : ℕ → ℕ → List PendingApc) (q : Queues code more)
    (quiet : (handle : ℕ) → more complete handle ≡ []) where
  call-quiet : (ctx : Context) (s : State) → (call (code complete) ctx s).apc_queue ≡ s.apc_queue
  unfolding call
  call-quiet ctx s = elim (Option-cases (code complete)) [
    | inl e ↦ rw e refl
    | inr (f, e) ↦ rw e (
        q complete f ctx s e ∙ ap (λ xs. s.apc_queue ++ xs) (quiet ctx.r3) ∙ append-nil s.apc_queue)
  ]

  probe-quiet :
      (enabled : Bool) (ctx : Context) (s : State)
      → (probe_complete_async_request code enabled ctx s).apc_queue ≡ s.apc_queue
  unfolding probe_complete_async_request
  probe-quiet enabled ctx s = ground (
    arith,
    call-quiet
        (record ctx {
          r3 = load_u32 s.kernel.mem (load_u32 s.kernel.mem (request_block + 0x18) + 0x34);
        })
        s,
  )

  run_routine-queues :
      (enabled : Bool) (ctx : Context) (apc : PendingApc) (s : State)
      (o : Option (Context → State → Context × State))
      → code (and_not32 apc.routine 3) ≡ o
      → (run_routine code enabled ctx apc o s).apc_queue
        ≡ s.apc_queue ++ queued_if o (more (and_not32 apc.routine 3) apc.context)
  unfolding run_routine
  run_routine-queues enabled ctx apc s none e = sym (append-nil s.apc_queue)
  run_routine-queues enabled ctx apc s (some f) e =
      let args = record ctx { r3 = apc.context; r4 = apc.iosb; r5 = 0 } in
      probe-quiet enabled ctx (f args s).1 ∙ q (and_not32 apc.routine 3) f args s e

  deliver_apc-queues :
      (enabled : Bool) (ctx : Context) (apc : PendingApc) (s : State)
      → (deliver_apc code enabled ctx apc s).apc_queue ≡ s.apc_queue ++ queued_by code more apc
  unfolding deliver_apc
  deliver_apc-queues enabled ctx apc s =
      run_routine-queues enabled ctx apc s (code (and_not32 apc.routine 3)) refl

  pub deliver_all-queues :
      (enabled : Bool) (ctx : Context) (queue : List PendingApc) (s : State)
      → (deliver_all code enabled ctx queue s).apc_queue ≡ s.apc_queue ++ queued code more queue
  unfolding deliver_all
  deliver_all-queues enabled ctx [] s = sym (append-nil s.apc_queue)
  deliver_all-queues enabled ctx (apc ∷ queue) s =
      deliver_all-queues enabled ctx queue (deliver_apc code enabled ctx apc s)
      ∙ ap (λ xs. xs ++ queued code more queue) (deliver_apc-queues enabled ctx apc s)
      ∙ append_assoc s.apc_queue (queued_by code more apc) (queued code more queue)

  -- Where every routine queues calls that depend on its address and argument only, and the
  -- completion routine none, delivering leaves in the queue the calls that the routines of the old
  -- queue queue, in its order: each routine runs once, and what it queues waits for the next
  -- delivery.
  pub deliver_pending_apcs-once :
      (enabled : Bool) (ctx : Context) (k : Kernel) (queue : List PendingApc)
      → (deliver_pending_apcs code enabled ctx
          (record { kernel = k; apc_queue = queue })).1.apc_queue
        ≡ queued code more queue
  unfolding deliver_pending_apcs is_empty
  deliver_pending_apcs-once enabled ctx k [] = refl
  deliver_pending_apcs-once enabled ctx k (apc ∷ queue) =
      deliver_all-queues enabled ctx (apc ∷ queue) (record { kernel = k; apc_queue = [] })

module _ (code : Code) (enabled : Bool) (ctx : Context) (k : Kernel) (alertable : ℕ) where
  -- The waits' first step, with a queue of pending calls: an empty queue changes nothing and the
  -- wait goes on; otherwise all calls of the queue are delivered, whether the wait is alertable or
  -- not, and only an alertable wait returns, with STATUS_USER_APC in r3. No other register changes.
  pub alertable_return-cases :
      (queue : List PendingApc)
      → let s : State = record { kernel = k; apc_queue = queue } in
        let s' = deliver_all code enabled ctx queue (record { kernel = k; apc_queue = [] }) in
        ((queue ≡ []) × (alertable_return code enabled ctx s alertable ≡ (false, ctx, s)))
        ⊎ ((queue ≢ [])
            × (alertable ≡ 0)
            × (alertable_return code enabled ctx s alertable ≡ (false, ctx, s')))
        ⊎ ((queue ≢ [])
            × (alertable ≢ 0)
            × (alertable_return code enabled ctx s alertable
                ≡ (true, record ctx { r3 = status_user_apc }, s')))
  unfolding alertable_return deliver_pending_apcs is_empty
  alertable_return-cases [] = inl (refl, refl)
  alertable_return-cases (apc ∷ queue) = elim (Bool-cases (alertable == 0)) [
    | inl e ↦ inr (inl ((λ p. nil≢cons (sym p)), ground (arith, e), rw e refl))
    | inr e ↦ inr (inr ((λ p. nil≢cons (sym p)), ground (arith, e), rw e refl))
  ]
