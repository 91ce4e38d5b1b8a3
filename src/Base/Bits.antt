-- ===== src/Base/Bits.antt =====
-- Masks as arithmetic: a low mask is a remainder, a high mask rounds down to a power of two.
use Prim.Native.Nat.{
  ℕ, zero, suc, ◌+◌, ◌-◌, ◌*◌, ◌/◌, ◌%◌, ◌^◌, ◌≤◌, ◌<◌, min, bit_and, digits, bit_and-bitwise,
}
use mathlib.Core.Path.{◌≡◌, refl, ap}
use native.Mathlib.Nat.{pow-suc, one-le-pow, div-lt_iff_lt-mul}
use native.Mathlib.Omega.{arith}

-- The native operations run a recursion on binary digits with the first operand as fuel.
module _ (z : ℕ → ℕ) (f : ℕ → ℕ → ℕ) where
  digits_enough : (n m a b : ℕ) → a ≤ n → a ≤ m → digits z f n a b ≡ digits z f m a b
  digits_enough zero zero a b p q = refl
  digits_enough (suc n) zero zero b p q = refl
  digits_enough zero (suc m) zero b p q = refl
  digits_enough (suc n) (suc m) zero b p q = refl
  digits_enough (suc n) zero (suc a) b p q = absurd (omega arith)
  digits_enough zero (suc m) (suc a) b p q = absurd (omega arith)
  digits_enough (suc n) (suc m) (suc a) b p q =
      omega (arith, digits_enough n m (suc a / 2) (b / 2) (omega arith) (omega arith))

pub bit_and_low : (a b : ℕ) → bit_and a b ≡ bit_and (a / 2) (b / 2) * 2 + min (a % 2) (b % 2)
bit_and_low zero b = omega (arith, bit_and-bitwise 0 b, bit_and-bitwise 0 (b / 2))
bit_and_low (suc a) b = omega (
  arith,
  bit_and-bitwise (suc a) b,
  bit_and-bitwise (suc a / 2) (b / 2),
  digits_enough (λ y. 0) min a (suc a / 2) (suc a / 2) (b / 2) (omega arith) (omega arith),
)

bit_and-none : (n a : ℕ) → a ≤ n → bit_and a 0 ≡ 0
bit_and-none n zero h = refl
bit_and-none zero (suc a) h = absurd (omega arith)
bit_and-none (suc n) (suc a) h =
    omega (arith, bit_and_low (suc a) 0, bit_and-none n (suc a / 2) (omega arith))

pub pow-pos : (k : ℕ) → 0 < 2 ^ k
pow-pos k = one-le-pow k 2 (omega arith)

pred-mul : (a b : ℕ) → 0 < a → (a - 1) * b + b ≡ a * b
pred-mul zero b h = absurd (omega arith)
pred-mul (suc a) b h =
    omega (arith, ap (λ (t : ℕ). t * b) (let e : suc a - 1 ≡ a = omega arith in e))

bit_and-zero : (a : ℕ) → bit_and a 0 ≡ 0
bit_and-zero a = bit_and-none a a (omega arith)

pub mul-pow-suc : (q k : ℕ) → q * 2 ^ suc k ≡ 2 * (q * 2 ^ k)
mul-pow-suc q k = omega (arith, ap (λ (t : ℕ). q * t) (pow-suc 2 k))

-- `&` works on the fields above and below bit `k` apart.
pub bit_and-fields :
    (k q r c s : ℕ)
    → r < 2 ^ k
    → s < 2 ^ k
    → bit_and (q * 2 ^ k + r) (c * 2 ^ k + s) ≡ bit_and q c * 2 ^ k + bit_and r s
bit_and-fields zero q zero c zero hr hs = ground arith
bit_and-fields zero q (suc r) c s hr hs = absurd (omega arith)
bit_and-fields zero q zero c (suc s) hr hs = absurd (omega arith)
bit_and-fields (suc k) q r c s hr hs = ground (
  arith,
  bit_and_low (q * 2 ^ suc k + r) (c * 2 ^ suc k + s),
  bit_and_low r s,
  mul-pow-suc q k,
  mul-pow-suc c k,
  mul-pow-suc (bit_and q c) k,
  pow-suc 2 k,
  bit_and-fields k q (r / 2) c (s / 2) (omega (arith, pow-suc 2 k)) (omega (arith, pow-suc 2 k)),
)

-- A mask of ones as wide as the number changes nothing.
pub bit_and-ones : (k a : ℕ) → a < 2 ^ k → bit_and a (2 ^ k - 1) ≡ a
bit_and-ones zero a h = ground (arith, bit_and-zero a)
bit_and-ones (suc k) a h = ground (
  arith,
  bit_and_low a (2 ^ suc k - 1),
  pow-suc 2 k,
  pow-pos k,
  bit_and-ones k (a / 2) (omega (arith, pow-suc 2 k)),
)

-- A mask of `k` low ones is the remainder by `2 ^ k`.
pub bit_and-mask : (k a : ℕ) → bit_and a (2 ^ k - 1) ≡ a % 2 ^ k
bit_and-mask k a = ground (
  arith,
  pow-pos k,
  bit_and-fields k (a / 2 ^ k) (a % 2 ^ k) 0 (2 ^ k - 1),
  bit_and-zero (a / 2 ^ k),
  bit_and-ones k (a % 2 ^ k),
)

-- A mask of `j` ones over `k` zeros clears the low `k` bits of a number of `j + k` bits.
pub bit_and-high_mask :
    (k j a : ℕ) → a / 2 ^ k < 2 ^ j → bit_and a ((2 ^ j - 1) * 2 ^ k) ≡ a / 2 ^ k * 2 ^ k
bit_and-high_mask k j a h = ground (
  arith,
  pow-pos k,
  bit_and-fields k (a / 2 ^ k) (a % 2 ^ k) (2 ^ j - 1) 0,
  bit_and-zero (a % 2 ^ k),
  bit_and-ones j (a / 2 ^ k),
)

pow-add : (j k : ℕ) → 2 ^ (j + k) ≡ 2 ^ j * 2 ^ k
pow-add zero k = ground arith
pow-add (suc j) k = omega (
  arith,
  ap (λ (t : ℕ). 2 ^ t) (let e : suc j + k ≡ suc (j + k) = omega arith in e),
  pow-suc 2 (j + k),
  ap (λ (t : ℕ). t * 2 ^ k) (pow-suc 2 j),
  pow-add j k,
)

-- What a mask of `n` bits with the low `k` clear does to a number of `n` bits.
pub and_not-align :
    (k j n a : ℕ) → j + k ≡ n → a < 2 ^ n → bit_and a (2 ^ n - 1 - (2 ^ k - 1)) ≡ a / 2 ^ k * 2 ^ k
and_not-align k j n a e h =
    let size : 2 ^ n ≡ 2 ^ j * 2 ^ k = rw (← e) (pow-add j k) in
    let mask : 2 ^ n - 1 - (2 ^ k - 1) ≡ (2 ^ j - 1) * 2 ^ k =
      omega (arith, size, pred-mul (2 ^ j) (2 ^ k) (pow-pos j), pow-pos k) in
    let fits : a / 2 ^ k < 2 ^ j = (div-lt_iff_lt-mul (pow-pos k)).1 (omega (arith, size)) in
    rw (mask, bit_and-high_mask k j a fits)
