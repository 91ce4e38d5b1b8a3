-- ===== src/Loader/Pages/Limits.antt =====
-- How much memory the threads of the game can make the handler commit.
use wosrecomp.Base.{
  ℕ, ◌+◌, ◌-◌, ◌*◌, ◌/◌, ◌%◌, ◌^◌, ◌≤◌, ◌<◌, ◌≡◌, refl, true, arith, and_not64, and_not-align,
}
use wosrecomp.Loader.Pages.{
  Reservation, Fault, Pages, passes_guards, region_of, count_commit, auto_commit_granularity,
  auto_commit_ceiling,
}

-- Threads in the handler are independent: each tests the guards, has the host commit its region,
-- and counts it. `in_flight` threads are between the guards and the count.
pub record Committing : Type 0 where
  pub pages : Pages
  pub in_flight : ℕ

pub data Step (v : Reservation) (threads : ℕ) : Committing → Committing → Type 0 where
  enters :
      (w : Committing) (f : Fault)
      → passes_guards v f w.pages ≡ true
      → w.in_flight < threads
      → Step v threads w (record w { in_flight = w.in_flight + 1 })
  refused :
      (w : Committing)
      → 0 < w.in_flight
      → Step v threads w (record w { in_flight = w.in_flight - 1 })
  commits :
      (w : Committing) (f : Fault)
      → 0 < w.in_flight
      → Step v threads w (record {
        pages = (count_commit v (region_of v f) w.pages).1;
        in_flight = w.in_flight - 1;
      })

pub data Reached (v : Reservation) (threads : ℕ) : Committing → Type 0 where
  start :
      Reached v threads
        (record { pages = record { bytes = 0; commits = 0; stack_bytes = 0 }; in_flight = 0 })
  next : {w w' : Committing} → Reached v threads w → Step v threads w w' → Reached v threads w'

-- What is counted, and what the threads in flight may still add.
pub record IsWithin (threads : ℕ) (w : Committing) : Type 0 where
  pub counted : w.pages.bytes ≡ w.pages.commits * auto_commit_granularity
  pub few : w.in_flight ≤ threads
  pub limited :
      w.pages.bytes + w.in_flight * auto_commit_granularity
      ≤ auto_commit_ceiling + (threads - 1) * auto_commit_granularity

-- The region of a fault that passes the guards holds its address, starts at a multiple of 64 KiB,
-- and, where the reservation is whole regions, lies inside it.
pub region_of-Holds :
    (v : Reservation) (f : Fault) (p : Pages)
    → v.guest_size % auto_commit_granularity ≡ 0
    → v.guest_size ≤ 2 ^ 32
    → passes_guards v f p ≡ true
    → let region = region_of v f in
      let guest = f.address - v.guest_base in
      (region ≤ guest)
      × (guest < region + auto_commit_granularity)
      × (region % auto_commit_granularity ≡ 0)
      × (region + auto_commit_granularity ≤ v.guest_size)
unfolding passes_guards region_of
region_of-Holds v f p whole small ok =
    let guest : ℕ = f.address - v.guest_base in
    let below : guest < v.guest_size = ground arith in
    let e : and_not64 guest (auto_commit_granularity - 1) ≡ guest / 2 ^ 16 * 2 ^ 16 =
      and_not-align 16 48 64 guest refl (omega arith) in
    rw e (omega arith, omega arith, omega arith, omega arith)
