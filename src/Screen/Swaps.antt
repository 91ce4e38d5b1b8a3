-- ===== src/Screen/Swaps.antt =====
-- A swap that the game has raised is reported to it once.
use wosrecomp.Base.{
  ◌≡◌, ◌⊎◌, inl, inr, refl, ◌∙◌, true, false, Bool-cases, Option, none, some, ◌==◌, arith,
}
use wosrecomp.Heap.{Commit}
use wosrecomp.Screen.{
  Screen, Registers, Code, source_swap, with_stack, with_pcr, raise_vblank, entry, deliver_swap,
  count_vblank, interrupt, run_interrupt, vblank,
}

-- A callback that raises no swap itself, and loses none.
abbrev pub KeepsPending : (Registers → Screen → Registers × Screen) → Type 0
KeepsPending fn = (ctx : Registers) (d : Screen) → (fn ctx d).1.swap_pending ≡ d.swap_pending

-- The swap interrupt was delivered as the last call of a turn, with the pending flag taken before
-- it.
abbrev pub Delivers : (Registers → Screen → Registers × Screen) → Screen → Type 0
Delivers fn d' =
    (ctx : Registers) × (before : Screen) × (ctx.r3 ≡ source_swap)
    × (before.swap_pending ≡ false)
    × (d' ≡ count_vblank (fn ctx before).1)

with_stack-pending :
    (commit : Commit) (d : Screen) → (with_stack commit d).swap_pending ≡ d.swap_pending
unfolding with_stack
with_stack-pending commit d = ground arith

with_pcr-pending :
    (commit : Commit) (d : Screen) → (with_pcr commit d).swap_pending ≡ d.swap_pending
unfolding with_pcr
with_pcr-pending commit d = ground arith

module _ (commit : Commit) (fn : Registers → Screen → Registers × Screen)
    (keeps : KeepsPending fn) where
  deliver_swap-Delivers :
      (ctx : Registers) (d : Screen)
      → d.swap_pending ≡ true
      → Delivers fn (count_vblank (deliver_swap fn ctx d))
  unfolding deliver_swap
  deliver_swap-Delivers ctx d on = (
    record ctx { r3 = source_swap; r4 = d.interrupt_user_data },
    record d { swap_pending = false },
    refl,
    refl,
    rw on refl,
  )

  interrupt-Delivers : (d : Screen) → d.swap_pending ≡ true → Delivers fn (interrupt commit fn d)
  unfolding interrupt raise_vblank
  interrupt-Delivers d on =
      let d₁ = with_pcr commit d in
      let r = fn (entry d₁) (raise_vblank d₁) in
      deliver_swap-Delivers r.0 r.1
        (keeps (entry d₁) (raise_vblank d₁) ∙ with_pcr-pending commit d ∙ on)

  run_interrupt-Delivers :
      (d : Screen)
      → d.swap_pending ≡ true
      → ((run_interrupt commit (some fn) d).swap_pending ≡ true)
        ⊎ Delivers fn (run_interrupt commit (some fn) d)
  unfolding run_interrupt
  run_interrupt-Delivers d on =
      let d₁ = with_stack commit d in
      let on₁ : d₁.swap_pending ≡ true = with_stack-pending commit d ∙ on in
      elim (Bool-cases (d₁.interrupt_stack == 0)) [
        | inl e ↦ rw e (inl on₁)
        | inr e ↦ rw e (inr (interrupt-Delivers d₁ on₁))
      ]

known-Delivers :
    (commit : Commit) (d : Screen) (o : Option (Registers → Screen → Registers × Screen))
    → d.swap_pending ≡ true
    → ((fn : Registers → Screen → Registers × Screen) → o ≡ some fn → KeepsPending fn)
    → ((run_interrupt commit o d).swap_pending ≡ true)
      ⊎ ((fn : Registers → Screen → Registers × Screen) × (o ≡ some fn)
          × Delivers fn (run_interrupt commit o d))
unfolding run_interrupt
known-Delivers commit d none on keeps = inl on
known-Delivers commit d (some fn) on keeps =
    elim (run_interrupt-Delivers commit fn (keeps fn refl) d on) [
      | inl pending ↦ inl pending
      | inr delivered ↦ inr (fn, refl, delivered)
    ]

-- A pending swap and a turn of the vblank thread, with a callback that leaves the pending flag as
-- it is: where the callback is set, is a known function and has a stack, the swap interrupt is
-- delivered with the flag taken before; otherwise the swap stays pending for a later turn.
pub vblank_swap :
    (commit : Commit) (code : Code) (d : Screen)
    → d.swap_pending ≡ true
    → ((fn : Registers → Screen → Registers × Screen)
        → code d.interrupt_callback ≡ some fn
        → KeepsPending fn)
    → ((vblank commit code d).swap_pending ≡ true)
      ⊎ ((fn : Registers → Screen → Registers × Screen) × (code d.interrupt_callback ≡ some fn)
          × Delivers fn (vblank commit code d))
unfolding vblank
vblank_swap commit code d on keeps = elim (Bool-cases (d.interrupt_callback == 0)) [
  | inl e ↦ rw e (inl on)
  | inr e ↦ rw e (known-Delivers commit d (code d.interrupt_callback) on keeps)
]
