-- ===== src/Phys/Statistics.antt =====
-- What a caller of MmQueryStatistics reads back.
use wosrecomp.Base.{ℕ, ◌+◌, ◌^◌, ◌≤◌, ◌<◌, ◌≡◌, refl, ◌≢◌, ◌⊎◌, arith}
use wosrecomp.Guest.{Mem, load_u32, store_words, status_success}
use wosrecomp.Guest.Fields.{Spaced, Holds, store_words-Holds, store_words_apart}
use wosrecomp.Phys.{Phys, statistics, mm_query_statistics}

statistics-Spaced : (n : ℕ) → Spaced 0x04 0x68 (statistics n)
unfolding statistics
statistics-Spaced n = omega arith

-- A call with a pointer, a length that covers the structure and room for it succeeds, fills every
-- word of the structure behind its length, and leaves a word `a` outside those as it was.
pub mm_query_statistics-Holds :
    (p : Phys) (m : Mem) (stats a : ℕ)
    → stats ≢ 0
    → 0x68 ≤ load_u32 m stats
    → stats + 0x68 ≤ 2 ^ 32
    → a < 2 ^ 32
    → (a + 4 ≤ stats + 4) ⊎ (stats + 0x68 ≤ a)
    → let r = mm_query_statistics p m stats in
      (r.0 ≡ status_success)
      × Holds r.1 stats (statistics p.allocated)
      × (load_u32 r.1 a ≡ load_u32 m a)
unfolding mm_query_statistics
mm_query_statistics-Holds p m stats a set long fits small h =
    let e : mm_query_statistics p m stats
        ≡ (status_success, store_words m stats (statistics p.allocated)) =
      ground arith in
    let spaced = statistics-Spaced p.allocated in
    rw e (
      refl,
      store_words-Holds stats 0x68 fits m 0x04 (statistics p.allocated) spaced,
      store_words_apart stats 0x68 fits m 0x04 (statistics p.allocated) a spaced small h,
    )
