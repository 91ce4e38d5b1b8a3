-- ===== src/Threads/Life.antt =====
-- When a guest thread runs, and when a wait for its exit ends.
use wosrecomp.Base.{
  ◌≡◌, refl, Bool, true, false, ℕ, some, arith, Bool-cases, OnSome, OnSome-some, inl, inr,
}
use wosrecomp.Events.{Timeout}
use wosrecomp.Threads.{
  Thread, release, mark_finished, wait_for_release, wait_for_exit, entry_registers, Place, waiting,
  running, returned, HostThread, guest_thread_starts, guest_thread_returns, Step, resumes, starts,
  returns, Reached, created, next,
}

-- What is known of a thread by where it is.
abbrev Fits : (ℕ → Bool) → Thread → Place → Type 0
Fits known t waiting = t.finished ≡ false
Fits known t (running r) =
    (t.finished ≡ false)
    × (t.released ≡ true)
    × (known t.entry_point ≡ true)
    × (r.r1 ≡ (entry_registers t 0).r1)
    × (r.r3 ≡ t.start_context)
Fits known t returned = (t.finished ≡ true) × (t.released ≡ true)

starts-Fits :
    (known : ℕ → Bool) (t : Thread) (pcr : ℕ)
    → t.finished ≡ false
    → OnSome (λ l. Fits known l.thread l.place) (guest_thread_starts known t pcr)
unfolding guest_thread_starts wait_for_release mark_finished entry_registers
starts-Fits known t pcr f = elim (Bool-cases t.released) [
  | inl r ↦ elim (Bool-cases (known t.entry_point)) [
    | inl k ↦ rw (r, k) (f, refl, k, refl, refl)
    | inr k ↦ rw (r, k) (refl, refl)
  ]
  | inr r ↦ rw r tt
]

resumes-Fits :
    (known : ℕ → Bool) (t : Thread) (p : Place) → Fits known t p → Fits known (release t) p
unfolding release entry_registers
resumes-Fits known t waiting f = f
resumes-Fits known t (running r) f = (f.0, refl, f.2, f.3, f.4)
resumes-Fits known t returned f = (f.0, refl)

Fits-Step :
    (known : ℕ → Bool) (l l' : HostThread)
    → Fits known l.thread l.place
    → Step known l l'
    → Fits known l'.thread l'.place
unfolding guest_thread_returns mark_finished
Fits-Step known l _ f (resumes _) = resumes-Fits known l.thread l.place f
Fits-Step known l l' f (starts _ _ pcr e s) =
    OnSome-some (λ l. Fits known l.thread l.place) (guest_thread_starts known l.thread pcr) l'
      (starts-Fits known l.thread pcr (rw e at f)) s
Fits-Step known l _ f (returns _ r e) =
    let f' : Fits known l.thread (running r) = rw e at f in (refl, f'.1)

reached-Fits :
    (known : ℕ → Bool) (t : Thread) (l : HostThread)
    → t.finished ≡ false
    → Reached known t l
    → Fits known l.thread l.place
reached-Fits known t _ new created = new
reached-Fits known t l new (next l₀ _ r s) = Fits-Step known l₀ l (reached-Fits known t l₀ new r) s

Fits-waits :
    (known : ℕ → Bool) (t : Thread) (p : Place) (timeout : Timeout)
    → Fits known t p
    → wait_for_exit t timeout ≡ some true
    → p ≡ returned
unfolding wait_for_exit
Fits-waits known t waiting Timeout.infinite f w = ground (arith, f, w)
Fits-waits known t waiting (Timeout.millis n) f w = ground (arith, f, w)
Fits-waits known t (running r) Timeout.infinite f w = ground (arith, f.0, w)
Fits-waits known t (running r) (Timeout.millis n) f w = ground (arith, f.0, w)
Fits-waits known t returned timeout f w = refl

Fits-released :
    (known : ℕ → Bool) (t : Thread) (p : Place) → Fits known t p → t.released ≡ false → p ≡ waiting
Fits-released known t waiting f off = refl
Fits-released known t (running r) f off = ground (arith, f.1, off)
Fits-released known t returned f off = ground (arith, f.1, off)

-- A wait for the exit of a thread that was not finished when it was created is satisfied only when
-- its code has returned, or has been found missing, and then without a limit too.
pub wait_for_exit-returned :
    (known : ℕ → Bool) (t : Thread) (l : HostThread) (timeout : Timeout)
    → t.finished ≡ false
    → Reached known t l
    → wait_for_exit l.thread timeout ≡ some true
    → (l.place ≡ returned) × (wait_for_exit l.thread Timeout.infinite ≡ some true)
unfolding wait_for_exit
wait_for_exit-returned known t l timeout new r w =
    let f = reached-Fits known t l new r in
    let back = Fits-waits known l.thread l.place timeout f w in
    let f' : Fits known l.thread returned = rw back at f in (back, rw f'.0 refl)

-- A thread that was not finished when it was created, and that nobody has released, by its creation
-- or by resuming it, has not run.
pub suspended-waits :
    (known : ℕ → Bool) (t : Thread) (l : HostThread)
    → t.finished ≡ false
    → Reached known t l
    → l.thread.released ≡ false
    → l.place ≡ waiting
suspended-waits known t l new r off =
    Fits-released known l.thread l.place (reached-Fits known t l new r) off
