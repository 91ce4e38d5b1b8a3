-- ===== src/Guest/Word.antt =====
-- The byte swaps of WoSRecomp/kernel/guest.h.
use wosrecomp.Base.{ℕ, ◌+◌, ◌*◌, ◌/◌, ◌%◌, ◌^◌, ◌<◌, ◌≡◌, arith}

-- `__builtin_bswap16`, `__builtin_bswap32` and `__builtin_bswap64`.
unfoldable pub bswap16 : ℕ → ℕ
bswap16 v = v % 256 * 2 ^ 8 + v / 2 ^ 8 % 256

unfoldable pub bswap32 : ℕ → ℕ
bswap32 v =
    v % 256 * 2 ^ 24 + v / 2 ^ 8 % 256 * 2 ^ 16 + v / 2 ^ 16 % 256 * 2 ^ 8 + v / 2 ^ 24 % 256

unfoldable pub bswap64 : ℕ → ℕ
bswap64 v = bswap32 (v % 2 ^ 32) * 2 ^ 32 + bswap32 (v / 2 ^ 32)

pub bswap16-bswap16 : (v : ℕ) → bswap16 (bswap16 v) ≡ v % 2 ^ 16
unfolding bswap16
bswap16-bswap16 v = omega arith

pub bswap32-lt : (v : ℕ) → bswap32 v < 2 ^ 32
unfolding bswap32
bswap32-lt v = omega arith

pub bswap32-bswap32 : (v : ℕ) → bswap32 (bswap32 v) ≡ v % 2 ^ 32
unfolding bswap32
bswap32-bswap32 v = omega arith

pub bswap32-mod : (v : ℕ) → bswap32 (v % 2 ^ 32) ≡ bswap32 v
unfolding bswap32
bswap32-mod v = omega arith

pub bswap64-lt : (v : ℕ) → bswap64 v < 2 ^ 64
unfolding bswap64
bswap64-lt v = omega (arith, bswap32-lt (v % 2 ^ 32), bswap32-lt (v / 2 ^ 32))

pub bswap64-bswap64 : (v : ℕ) → bswap64 (bswap64 v) ≡ v % 2 ^ 64
unfolding bswap64
bswap64-bswap64 v =
    let low : ℕ = bswap32 (v % 2 ^ 32) in
    let high : ℕ = bswap32 (v / 2 ^ 32) in
    let high_of : (low * 2 ^ 32 + high) % 2 ^ 32 ≡ high = omega (arith, bswap32-lt (v / 2 ^ 32)) in
    let low_of : (low * 2 ^ 32 + high) / 2 ^ 32 ≡ low = omega (arith, bswap32-lt (v / 2 ^ 32)) in
    rw (high_of, low_of) (omega (arith, bswap32-bswap32 (v % 2 ^ 32), bswap32-bswap32 (v / 2 ^ 32)))
