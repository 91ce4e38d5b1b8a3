-- ===== src/Files/Streams.antt =====
-- What the C library documents of streams, and what a status block leaves of guest memory.
use wosrecomp.Base.{
  ℕ, ◌+◌, ◌^◌, ◌≤◌, ◌<◌, ◌≡◌, ◌⊎◌, inl, inr, refl, ap, ◌∙◌, Bool-cases, ◌==◌, List, length, take,
  drop, All, arith, u32,
}
use native.Mathlib.Nat.{mod-eq_of_lt}
use wosrecomp.Guest.{Mem, load_u64, store_u32, store_u64, store_words}
use wosrecomp.Guest.Word.{bswap32, bswap64}
use wosrecomp.Guest.Laws.{SameOutside, copy_in-SameOutside, copy_out_same}
use wosrecomp.Sync.{Kernel}
use wosrecomp.Files.{Stdio, file_size, store_status, file_at}

-- A stream has a position and contents: seeking moves the position only, the end lies at the length
-- of the contents, and reading gives the bytes from the position on, as many as there are, and
-- moves past them. Contents are bytes.
pub record IsStdio {H : Type 0} (io : Stdio H) (contents : H → ℕ → List ℕ) : Type 0 where
  pub tell_seek : (h : H) (fp pos : ℕ) → pos < 2 ^ 63 → io.ftell (io.fseek_set h fp pos) fp ≡ pos
  pub tell_end : (h : H) (fp : ℕ) → io.ftell (io.fseek_end h fp) fp ≡ length (contents h fp)
  pub seek_contents : (h : H) (fp pos : ℕ) → contents (io.fseek_set h fp pos) fp ≡ contents h fp
  pub end_contents : (h : H) (fp : ℕ) → contents (io.fseek_end h fp) fp ≡ contents h fp
  pub read_bytes :
      (h : H) (fp n : ℕ) → (io.fread h fp n).0 ≡ take n (drop (io.ftell h fp) (contents h fp))
  pub read_tell :
      (h : H) (fp n : ℕ)
      → io.ftell (io.fread h fp n).1 fp ≡ io.ftell h fp + length (io.fread h fp n).0
  pub bytes : (h : H) (fp : ℕ) → All (λ b. b < 256) (contents h fp)
  pub small : (h : H) (fp : ℕ) → length (contents h fp) < 2 ^ 63

module _ {H : Type 0} (io : Stdio H) (contents : H → ℕ → List ℕ) (v : IsStdio io contents) where
  -- `FileSize` is the length of the contents, and leaves a position that fits 63 bits where it was.
  pub file_size-lem :
      (h : H) (fp : ℕ)
      → ((file_size io h fp).0 ≡ length (contents h fp))
        × (io.ftell h fp < 2 ^ 63 → io.ftell (file_size io h fp).1 fp ≡ io.ftell h fp)
  unfolding file_size
  file_size-lem h fp = (
    ground (arith, v.tell_end h fp, v.small h fp),
    λ l. v.tell_seek (io.fseek_end h fp) fp (io.ftell h fp) l,
  )

pub store_u32-SameOutside :
    (m : Mem) (a v : ℕ) → a + 4 ≤ 2 ^ 32 → SameOutside a 4 m (store_u32 m a v)
unfolding store_u32
store_u32-SameOutside m a v fits =
    let same : u32 a ≡ a = mod-eq_of_lt (omega arith) in
    rw same (copy_in-SameOutside 4 m a (bswap32 v))

pub store_u64-SameOutside :
    (m : Mem) (a v : ℕ) → a + 8 ≤ 2 ^ 32 → SameOutside a 8 m (store_u64 m a v)
unfolding store_u64
store_u64-SameOutside m a v fits =
    let same : u32 a ≡ a = mod-eq_of_lt (omega arith) in
    rw same (copy_in-SameOutside 8 m a (bswap64 v))

-- Two memories that agree on the bytes of a 64-bit number load the same one.
pub load_u64-same :
    (m m' : Mem) (a : ℕ)
    → a + 8 ≤ 2 ^ 32
    → ((x : ℕ) → a ≤ x → x < a + 8 → m' x ≡ m x)
    → load_u64 m' a ≡ load_u64 m a
unfolding load_u64
load_u64-same m m' a fits same =
    ap bswap64 (copy_out_same 8 m m' (u32 a) (λ x l u. same x (omega arith) (omega arith)))

-- A status block that is not passed, or does not wrap and has no byte of the `n` from `lo` on.
abbrev pub Apart : ℕ → ℕ → ℕ → Type 0
Apart io_status_block lo n =
    (io_status_block ≡ 0)
    ⊎ ((io_status_block + 8 ≤ 2 ^ 32) × ((io_status_block + 8 ≤ lo) ⊎ (lo + n ≤ io_status_block)))

pub store_status-same :
    (k : Kernel) (io_status_block status information lo n x : ℕ)
    → Apart io_status_block lo n
    → lo ≤ x
    → x < lo + n
    → (store_status k io_status_block status information).mem x ≡ k.mem x
unfolding store_status store_words
store_status-same k io_status_block status information lo n x apart above below =
    let m : Mem = store_u32 k.mem (io_status_block + 0) status in
    elim (Bool-cases (io_status_block == 0)) [
      | inl e ↦ rw e refl
      | inr e ↦ rw e (
          store_u32-SameOutside m (io_status_block + 4) information (grind arith) x (grind arith)
          ∙ store_u32-SameOutside k.mem (io_status_block + 0) status (grind arith) x (grind arith))
    ]

-- Storing a status leaves every handle as it was.
pub store_status-file_at :
    (k : Kernel) (io_status_block status information handle : ℕ)
    → file_at (store_status k io_status_block status information) handle ≡ file_at k handle
unfolding store_status file_at
store_status-file_at k io_status_block status information handle =
    elim (Bool-cases (io_status_block == 0)) [ inl e ↦ rw e refl | inr e ↦ rw e refl ]
