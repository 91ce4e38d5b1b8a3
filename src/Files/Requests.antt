-- ===== src/Files/Requests.antt =====
-- What a guest learns of an open file, and that it may move in it.
use wosrecomp.Base.{
  ℕ, ◌+◌, ◌^◌, ◌≤◌, ◌<◌, ◌≡◌, ◌≢◌, ◌⊎◌, inl, refl, ◌∙◌, some, List, [], ◌∷◌, length, arith,
}
use native.Mathlib.Nat.{mod-eq_of_lt}
use wosrecomp.Guest.{Mem, load_u64, store_u32, store_u64, store_words, status_success}
use wosrecomp.Guest.Laws.{load_u64-store_u64}
use wosrecomp.Objects.{FileObject}
use wosrecomp.Sync.{Kernel}
use wosrecomp.Files.{
  Stdio, file_at, file_size, file_standard_information, file_position_information,
  status_info_length_mismatch, status_invalid_info_class, information, store_status, store_u64s,
  nt_query_information_file, nt_set_information_file,
}
use wosrecomp.Files.Streams.{
  IsStdio, file_size-lem, store_u32-SameOutside, load_u64-same, Apart, store_status-same,
  store_status-file_at,
}

module _ {H : Type 0} (io : Stdio H) (contents : H → ℕ → List ℕ) (v : IsStdio io contents) where
  -- A 64-bit number that was stored before the status block is what the guest loads.
  load_u64-store_status :
      (k : Kernel) (io_status_block status written lo n a value : ℕ)
      → value < 2 ^ 64
      → Apart io_status_block lo n
      → lo ≤ a
      → a + 8 ≤ lo + n
      → a + 8 ≤ 2 ^ 32
      → load_u64 k.mem a ≡ value
      → load_u64 (store_status k io_status_block status written).mem a ≡ value
  load_u64-store_status k io_status_block status written lo n a value small apart above below fits
        e =
      load_u64-same k.mem (store_status k io_status_block status written).mem a fits (λ x l u.
        store_status-same k io_status_block status written lo n x apart (omega arith) (omega arith))
      ∙ e

  -- The answer to FileStandardInformation, before the status block.
  standard : Mem → ℕ → ℕ → Mem
  standard m info_out size =
      store_words (store_u64s m info_out ((0, size) ∷ (8, size) ∷ [])) info_out
        ((16, 1) ∷ (20, 0) ∷ [])

  standard-size :
      (m : Mem) (info_out size : ℕ)
      → info_out + 24 ≤ 2 ^ 32
      → size < 2 ^ 64
      → load_u64 (standard m info_out size) (info_out + 8) ≡ size
  unfolding standard store_words store_u64s
  standard-size m info_out size fits small =
      let m₁ = store_u64 (store_u64 m (info_out + 0) size) (info_out + 8) size in
      let m₂ = store_u32 m₁ (info_out + 16) 1 in
      load_u64-same m₁ (store_u32 m₂ (info_out + 20) 0) (info_out + 8) (omega arith) (λ x l u.
        store_u32-SameOutside m₂ (info_out + 20) 0 (omega arith) x (inl (omega arith))
        ∙ store_u32-SameOutside m₁ (info_out + 16) 1 (omega arith) x (inl (omega arith)))
      ∙ load_u64-store_u64 (store_u64 m (info_out + 0) size) (info_out + 8) size
      ∙ mod-eq_of_lt small

  module _ (k : Kernel) (h : H) (handle io_status_block info_out len : ℕ) (f : FileObject)
      (at : file_at k handle ≡ some f) where
    standard-eq :
        24 ≤ len
        → nt_query_information_file io k h handle io_status_block info_out len
            file_standard_information
          ≡ (
            status_success,
            store_status
                (record k { mem = standard k.mem info_out (file_size io h f.fp).0 })
                io_status_block
                status_success
                24,
            (file_size io h f.fp).1,
          )
    unfolding nt_query_information_file information standard
    standard-eq enough = ground (arith, at)

    position-eq :
        8 ≤ len
        → nt_query_information_file io k h handle io_status_block info_out len
            file_position_information
          ≡ (
            status_success,
            store_status
                (record k { mem = store_u64 k.mem info_out (io.ftell h f.fp) })
                io_status_block
                status_success
                8,
            h,
          )
    unfolding nt_query_information_file information
    position-eq enough = ground (arith, at)

    -- Asking an open file, at a position that fits 63 bits, for its size: with room for 24 bytes in
    -- the address space and in the length, and a status block apart from them, the guest reads the
    -- length of the contents in EndOfFile, and the position is as it was.
    pub nt_query_information_file-size :
        24 ≤ len
        → info_out + 24 ≤ 2 ^ 32
        → Apart io_status_block info_out 24
        → io.ftell h f.fp < 2 ^ 63
        → let r =
            nt_query_information_file io k h handle io_status_block info_out len
              file_standard_information in
          (r.0 ≡ status_success)
          × (load_u64 r.1.mem (info_out + 8) ≡ length (contents h f.fp))
          × (io.ftell r.2 f.fp ≡ io.ftell h f.fp)
    nt_query_information_file-size enough fits apart low =
        let (size, back) = file_size-lem io contents v h f.fp in
        let m : Mem = standard k.mem info_out (file_size io h f.fp).0 in
        let small : (file_size io h f.fp).0 < 2 ^ 64 = omega (arith, size, v.small h f.fp) in
        rw (standard-eq enough) (
          refl,
          load_u64-store_status (record k { mem = m }) io_status_block status_success 24 info_out 24
                (info_out + 8) (file_size io h f.fp).0 small apart (omega arith) (omega arith)
                (omega arith) (standard-size k.mem info_out (file_size io h f.fp).0 fits small)
              ∙ size,
          back low,
        )

    -- A request is refused with nothing changed where the class is unknown, or known and the length
    -- too small for it.
    pub nt_query_information_file-refuses :
        (info_class : ℕ)
        → (nt_query_information_file io k h handle io_status_block info_out len info_class).0
          ≢ status_success
        → let r = nt_query_information_file io k h handle io_status_block info_out len info_class in
          (r ≡ (status_invalid_info_class, k, h)) ⊎ (r ≡ (status_info_length_mismatch, k, h))
    unfolding nt_query_information_file information
    nt_query_information_file-refuses info_class failed = ground (arith, at, failed)

  set_position-eq :
      (k : Kernel) (h : H) (handle io_status_block info_in : ℕ) (f : FileObject)
      → file_at k handle ≡ some f
      → nt_set_information_file io k h handle io_status_block info_in file_position_information ≡ (
        status_success,
        store_status k io_status_block status_success 0,
        io.fseek_set h f.fp (load_u64 k.mem info_in),
      )
  unfolding nt_set_information_file
  set_position-eq k h handle io_status_block info_in f at = rw (at, nt_set_information_file) refl

  -- NtSetInformationFile to a position below 2 ^ 63, and then NtQueryInformationFile for it, with 8
  -- bytes of room and a status block apart from them, on the same open file: both succeed, and the
  -- guest reads the position that it set.
  pub set_position-query_position :
      (k : Kernel) (h : H) (handle io_status_block info_in io_status_block' info_out len pos : ℕ)
      (f : FileObject)
      → file_at k handle ≡ some f
      → load_u64 k.mem info_in ≡ pos
      → pos < 2 ^ 63
      → 8 ≤ len
      → info_out + 8 ≤ 2 ^ 32
      → Apart io_status_block' info_out 8
      → let s =
          nt_set_information_file io k h handle io_status_block info_in file_position_information in
        let r =
          nt_query_information_file io s.1 s.2 handle io_status_block' info_out len
            file_position_information in
        (s.0 ≡ status_success) × (r.0 ≡ status_success) × (load_u64 r.1.mem info_out ≡ pos)
  set_position-query_position k h handle io_status_block info_in io_status_block' info_out len pos f
        at e low enough fits apart =
      let k' : Kernel = store_status k io_status_block status_success 0 in
      let h' : H = io.fseek_set h f.fp (load_u64 k.mem info_in) in
      let told : io.ftell h' f.fp ≡ pos =
        v.tell_seek h f.fp (load_u64 k.mem info_in) (omega (arith, e)) ∙ e in
      rw
        (
          set_position-eq k h handle io_status_block info_in f at,
          position-eq k' h' handle io_status_block' info_out len f
              (store_status-file_at k io_status_block status_success 0 handle ∙ at) enough,
        )
        (
          refl,
          refl,
          load_u64-store_status (record k' { mem = store_u64 k'.mem info_out (io.ftell h' f.fp) })
              io_status_block' status_success 8 info_out 8 info_out pos (omega arith) apart
              (omega arith) (omega arith) fits
              (load_u64-store_u64 k'.mem info_out (io.ftell h' f.fp)
                ∙ mod-eq_of_lt (omega (arith, told))
                ∙ told),
        )
