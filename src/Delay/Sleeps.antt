-- ===== src/Delay/Sleeps.antt =====
-- How long a delay lasts.
use wosrecomp.Base.{ℕ, ◌+◌, ◌-◌, ◌*◌, ◌^◌, ◌≤◌, ◌<◌, ◌≡◌, ◌≢◌, ◌⊎◌, arith, ltb, if◌then◌else◌}
use wosrecomp.Guest.{Mem, load_u64}
use wosrecomp.Delay.{yields, sleeps, max_hundred_ns, pause_relative, pause_until, pause}

-- A relative delay of `d` units of 100 ns, of any length, the longest one included, sleeps as long
-- as it asks for or an hour, whichever is less: a positive number of nanoseconds that does not
-- wrap.
pub pause-relative :
    (m : Mem) (now interval_ptr d : ℕ)
    → interval_ptr ≢ 0
    → 0 < d
    → d ≤ 2 ^ 63
    → load_u64 m interval_ptr ≡ 2 ^ 64 - d
    → (ns : ℕ) × (pause m now interval_ptr ≡ sleeps ns)
      × (0 < ns)
      × (ns < 2 ^ 63)
      × (((d ≤ max_hundred_ns) × (ns ≡ d * 100))
          ⊎ ((max_hundred_ns < d) × (ns ≡ max_hundred_ns * 100)))
unfolding pause pause_relative
pause-relative m now interval_ptr d set pos low e = (
  (if ltb max_hundred_ns d then max_hundred_ns else d) * 100,
  ground (arith, e),
  ground arith,
  ground arith,
  grind arith,
)

-- A deadline at most 2 ^ 63 / 100 units ahead is slept for exactly; one that has passed is not.
pub pause-until :
    (m : Mem) (now interval_ptr : ℕ)
    → interval_ptr ≢ 0
    → load_u64 m interval_ptr < 2 ^ 63
    → load_u64 m interval_ptr < now + 92233720368547758
    → ((load_u64 m interval_ptr ≤ now) × (pause m now interval_ptr ≡ yields))
      ⊎ ((now < load_u64 m interval_ptr)
          × (pause m now interval_ptr ≡ sleeps ((load_u64 m interval_ptr - now) * 100)))
unfolding pause pause_until
pause-until m now interval_ptr set low near = grind arith

-- A deadline 2 ^ 62 units ahead, some fourteen thousand years, sleeps for 0 nanoseconds: the
-- product wraps.
pub pause-wraps :
    (m : Mem) (now interval_ptr : ℕ)
    → interval_ptr ≢ 0
    → now < 2 ^ 62
    → load_u64 m interval_ptr ≡ now + 2 ^ 62
    → pause m now interval_ptr ≡ sleeps 0
unfolding pause pause_until
pause-wraps m now interval_ptr set low e = ground (arith, e)
