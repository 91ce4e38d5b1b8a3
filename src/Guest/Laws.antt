-- ===== src/Guest/Laws.antt =====
-- What a load sees of an earlier store.
use wosrecomp.Base.{
  ℕ, zero, suc, ◌+◌, ◌*◌, ◌/◌, ◌%◌, ◌^◌, ◌≤◌, ◌<◌, ◌≡◌, refl, ap, ◌∙◌, ◌⊎◌, arith, u32,
}
use native.Mathlib.Nat.{
  one-le-pow, pow-suc, div-add-mod, mod-lt, mod-eq_of_lt, mul-add-mod_self_left,
}
use wosrecomp.Guest.{
  Mem, store_byte, copy_out, copy_in, load_u16, store_u16, load_u32, store_u32, load_u64, store_u64,
}
use wosrecomp.Guest.Word.{
  bswap16, bswap32, bswap64, bswap32-lt, bswap64-lt, bswap32-bswap32, bswap64-bswap64,
}

-- Memory holds bytes.
abbrev pub IsBytes : Mem → Type 0
IsBytes m = (a : ℕ) → m a < 256

-- Only the `n` bytes from `p` on may differ.
abbrev pub SameOutside : ℕ → ℕ → Mem → Mem → Type 0
SameOutside p n m m' = (a : ℕ) → ((a < p) ⊎ (p + n ≤ a)) → m' a ≡ m a

pub copy_in-SameOutside : (n : ℕ) (m : Mem) (p v : ℕ) → SameOutside p n m (copy_in n m p v)
unfolding copy_in store_byte
copy_in-SameOutside zero m p v a h = refl
copy_in-SameOutside (suc n) m p v a h =
    ground (arith, copy_in-SameOutside n (store_byte m p v) (p + 1) (v / 256) a)

pub copy_in-IsBytes : (n : ℕ) (m : Mem) (p v : ℕ) → IsBytes m → IsBytes (copy_in n m p v)
unfolding copy_in store_byte
copy_in-IsBytes zero m p v b a = b a
copy_in-IsBytes (suc n) m p v b a =
    copy_in-IsBytes n (store_byte m p v) (p + 1) (v / 256) (λ x. ground (arith, b x)) a

pub copy_out_same :
    (n : ℕ) (m m' : Mem) (p : ℕ)
    → ((a : ℕ) → p ≤ a → a < p + n → m' a ≡ m a)
    → copy_out n m' p ≡ copy_out n m p
unfolding copy_out
copy_out_same zero m m' p h = refl
copy_out_same (suc n) m m' p h =
    omega (arith, h p, copy_out_same n m m' (p + 1) (λ a l u. h a (omega arith) (omega arith)))

-- The remainder by a multiple of 256, digit by digit.
mod-mul_256 : (v b : ℕ) → 0 < b → v % (256 * b) ≡ v % 256 + 256 * (v / 256 % b)
mod-mul_256 v b h =
    let q : ℕ = v / 256 / b in
    let t : ℕ = v % 256 + 256 * (v / 256 % b) in
    let parts : v ≡ 256 * b * q + t = omega (arith, div-add-mod (v / 256) b) in
    let small : t < 256 * b = omega (arith, mod-lt (v / 256) h) in
    ap (λ (x : ℕ). x % (256 * b)) parts ∙ mul-add-mod_self_left (256 * b) q t ∙ mod-eq_of_lt small

pub copy_out-copy_in : (n : ℕ) (m : Mem) (p v : ℕ) → copy_out n (copy_in n m p v) p ≡ v % 256 ^ n
unfolding copy_out copy_in store_byte
copy_out-copy_in zero m p v = omega arith
copy_out-copy_in (suc n) m p v = ground (
  arith,
  copy_in-SameOutside n (store_byte m p v) (p + 1) (v / 256) p,
  copy_out-copy_in n (store_byte m p v) (p + 1) (v / 256),
  mod-mul_256 v (256 ^ n) (one-le-pow n 256 (omega arith)),
  pow-suc 256 n,
)

-- The number that `n` bytes from `p` on stand for, most significant first.
abbrev pub big_endian : ℕ → Mem → ℕ → ℕ
big_endian zero m p = 0
big_endian (suc n) m p = m p * 256 ^ n + big_endian n m (p + 1)

module _ (m : Mem) (a : ℕ) (b : IsBytes m) where
  load_u16-big_endian : load_u16 m a ≡ big_endian 2 m (u32 a)
  unfolding load_u16 copy_out bswap16
  load_u16-big_endian = omega (arith, b (u32 a), b (u32 a + 1))

  -- Where memory holds bytes, a 32-bit load is the big-endian number of the four bytes at its
  -- address.
  pub load_u32-big_endian : load_u32 m a ≡ big_endian 4 m (u32 a)
  unfolding load_u32 copy_out bswap32
  load_u32-big_endian =
      let p : ℕ = u32 a in omega (arith, b p, b (p + 1), b (p + 1 + 1), b (p + 1 + 1 + 1))

pub load_u16-store_u16 : (m : Mem) (a v : ℕ) → load_u16 (store_u16 m a v) a ≡ v % 2 ^ 16
unfolding load_u16 store_u16 bswap16
load_u16-store_u16 m a v = rw (copy_out-copy_in 2 m (u32 a) (bswap16 v)) (omega arith)

-- A 32-bit value that was stored is loaded again, cut to its width.
pub load_u32-store_u32 : (m : Mem) (a v : ℕ) → load_u32 (store_u32 m a v) a ≡ v % 2 ^ 32
unfolding load_u32 store_u32
load_u32-store_u32 m a v =
    ap bswap32 (copy_out-copy_in 4 m (u32 a) (bswap32 v) ∙ mod-eq_of_lt (bswap32-lt v))
    ∙ bswap32-bswap32 v

pub load_u64-store_u64 : (m : Mem) (a v : ℕ) → load_u64 (store_u64 m a v) a ≡ v % 2 ^ 64
unfolding load_u64 store_u64
load_u64-store_u64 m a v =
    ap bswap64 (copy_out-copy_in 8 m (u32 a) (bswap64 v) ∙ mod-eq_of_lt (bswap64-lt v))
    ∙ bswap64-bswap64 v

-- A store outside the bytes that a load reads does not change what it reads.
module _ (m : Mem) (a b v : ℕ) where
  pub load_u32-store_u32_apart :
      (u32 b + 4 ≤ u32 a) ⊎ (u32 a + 4 ≤ u32 b) → load_u32 (store_u32 m b v) a ≡ load_u32 m a
  unfolding load_u32 store_u32
  load_u32-store_u32_apart h = ap bswap32 (
      copy_out_same 4 m _ (u32 a)
        (λ x l u. copy_in-SameOutside 4 m (u32 b) (bswap32 v) x (omega arith)))
