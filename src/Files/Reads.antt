-- ===== src/Files/Reads.antt =====
-- What NtReadFile transfers, reports and queues.
use wosrecomp.Base.{
  ℕ, zero, suc, ◌+◌, ◌≤◌, ◌<◌, ◌≡◌, ◌≢◌, ◌⊎◌, inl, inr, Bool-cases, ltb, ◌^◌, refl, ap, sym, ◌∙◌,
  some, List, [], ◌∷◌, ◌++◌, length, take, drop, All, arith, u32, length-take, ◌==◌, ◌&&◌, not,
  if◌then◌else◌,
}
use mathlib.Core.List.{nil≢cons}
use wosrecomp.Guest.{Mem, load_u64, store_byte, status_success, status_pending}
use wosrecomp.Guest.Laws.{SameOutside}
use wosrecomp.Objects.{FileObject}
use wosrecomp.Sync.{Kernel, replace}
use wosrecomp.Paths.{bytes_at}
use wosrecomp.Apc.{State, queue_thread_apc, is_empty}
use wosrecomp.Files.{
  Stdio, file_at, status_end_of_file, store_status, signal_event_if_any, write_bytes, seek_offset,
  queue_completion, finish_read, nt_read_file,
}
use wosrecomp.Files.Streams.{IsStdio, Apart, store_status-same}

pub write_bytes-SameOutside :
    (m : Mem) (p : ℕ) (bytes : List ℕ) → SameOutside p (length bytes) m (write_bytes m p bytes)
unfolding write_bytes store_byte
write_bytes-SameOutside m p [] x out = refl
write_bytes-SameOutside m p (b ∷ bytes) x out =
    ground (arith, write_bytes-SameOutside (store_byte m p b) (p + 1) bytes x)

pub bytes_at-same :
    (m m' : Mem) (p n : ℕ)
    → ((x : ℕ) → p ≤ x → x < p + n → m' x ≡ m x)
    → bytes_at m' p n ≡ bytes_at m p n
unfolding bytes_at
bytes_at-same m m' p zero same = refl
bytes_at-same m m' p (suc n) same =
    ap (λ x. x ∷ bytes_at m' (p + 1) n) (same p (omega arith) (omega arith))
    ∙ ap (λ xs. m p ∷ xs)
        (bytes_at-same m m' (p + 1) n (λ x l u. same x (omega arith) (omega arith)))

pub bytes_at-write_bytes :
    (m : Mem) (p : ℕ) (bytes : List ℕ)
    → All (λ b. b < 256) bytes
    → bytes_at (write_bytes m p bytes) p (length bytes) ≡ bytes
unfolding bytes_at write_bytes store_byte
bytes_at-write_bytes m p [] v = refl
bytes_at-write_bytes m p (b ∷ bytes) v =
    let m₁ = store_byte m p b in
    let first : write_bytes m₁ (p + 1) bytes p ≡ b =
      write_bytes-SameOutside m₁ (p + 1) bytes p (inl (omega arith)) ∙ ground (arith, v.0) in
    ap (λ x. x ∷ bytes_at (write_bytes m₁ (p + 1) bytes) (p + 1) (length bytes)) first
    ∙ ap (λ xs. b ∷ xs) (bytes_at-write_bytes m₁ (p + 1) bytes v.1)

All-drop : (n : ℕ) (xs : List ℕ) → All (λ b. b < 256) xs → All (λ b. b < 256) (drop n xs)
All-drop zero xs v = v
All-drop (suc n) [] v = tt
All-drop (suc n) (x ∷ xs) v = All-drop n xs v.1

All-take : (n : ℕ) (xs : List ℕ) → All (λ b. b < 256) xs → All (λ b. b < 256) (take n xs)
All-take zero xs v = tt
All-take (suc n) [] v = tt
All-take (suc n) (x ∷ xs) v = (v.0, All-take n xs v.1)

signal_event_if_any-mem : (k : Kernel) (ptr : ℕ) → (signal_event_if_any k ptr).mem ≡ k.mem
unfolding signal_event_if_any replace
signal_event_if_any-mem k ptr = ground arith

queue_completion-kernel :
    (s : State) (apc_routine apc_context io_status_block : ℕ)
    → (queue_completion s apc_routine apc_context io_status_block).kernel ≡ s.kernel
unfolding queue_completion queue_thread_apc
queue_completion-kernel s apc_routine apc_context io_status_block = ground arith

-- The bytes read stand in the buffer, whatever else NtReadFile writes then.
finish_read-bytes :
    (s : State) (bytes : List ℕ)
    (event_handle apc_routine apc_context io_status_block buffer len : ℕ)
    → length bytes ≤ len
    → Apart io_status_block buffer len
    → All (λ b. b < 256) bytes
    → let r = finish_read s bytes event_handle apc_routine apc_context io_status_block buffer len in
      bytes_at r.1.kernel.mem buffer (length bytes) ≡ bytes
unfolding finish_read
finish_read-bytes s bytes event_handle apc_routine apc_context io_status_block buffer len short
      apart small =
    let k : Kernel = record s.kernel { mem = write_bytes s.kernel.mem buffer bytes } in
    let at_end = is_empty bytes && not (len == 0) in
    let k' : Kernel =
      store_status k io_status_block (if at_end then status_end_of_file else status_success)
        (u32 (length bytes)) in
    ap (λ (k : Kernel). bytes_at k.mem buffer (length bytes))
      (queue_completion-kernel (record s { kernel = signal_event_if_any k' event_handle })
        apc_routine apc_context io_status_block)
    ∙ ap (λ m. bytes_at m buffer (length bytes)) (signal_event_if_any-mem k' event_handle)
    ∙ bytes_at-same k.mem k'.mem buffer (length bytes) (λ x l u.
      store_status-same k io_status_block (if at_end then status_end_of_file else status_success)
        (u32 (length bytes)) buffer len x apart l (omega arith))
    ∙ bytes_at-write_bytes s.kernel.mem buffer bytes small

-- The status and the queue, by what was read.
finish_read-status :
    (s : State) (bytes : List ℕ)
    (event_handle apc_routine apc_context io_status_block buffer len : ℕ)
    → let r = finish_read s bytes event_handle apc_routine apc_context io_status_block buffer len in
      (((bytes ≡ []) × (len ≢ 0) × (r.0 ≡ status_end_of_file))
        ⊎ (((bytes ≢ []) ⊎ (len ≡ 0)) × (apc_routine ≡ 0) × (r.0 ≡ status_success))
        ⊎ (((bytes ≢ []) ⊎ (len ≡ 0)) × (apc_routine ≢ 0) × (r.0 ≡ status_pending)))
unfolding finish_read is_empty
finish_read-status s [] event_handle apc_routine apc_context io_status_block buffer len =
    grind arith
finish_read-status s (b ∷ bytes) event_handle apc_routine apc_context io_status_block buffer len =
    let read : b ∷ bytes ≢ [] = λ e. nil≢cons (sym e) in grind (arith, read)

finish_read-queue :
    (s : State) (bytes : List ℕ)
    (event_handle apc_routine apc_context io_status_block buffer len : ℕ)
    → let r = finish_read s bytes event_handle apc_routine apc_context io_status_block buffer len in
      r.1.apc_queue ≡ (
        if apc_routine == 0
        then s.apc_queue
        else s.apc_queue
          ++ record { routine = apc_routine; context = apc_context; iosb = io_status_block } ∷ [])
unfolding finish_read queue_completion queue_thread_apc
finish_read-queue s bytes event_handle apc_routine apc_context io_status_block buffer len =
    ground arith

module _ {H : Type 0} (io : Stdio H) (contents : H → ℕ → List ℕ) (v : IsStdio io contents)
    (s : State) (h : H)
    (handle event_handle apc_routine apc_context io_status_block buffer len byte_offset_ptr : ℕ)
    (f : FileObject) (at : file_at s.kernel handle ≡ some f) where
  abbrev pub result : ℕ × State × H
  result =
      nt_read_file io s h handle event_handle apc_routine apc_context io_status_block buffer len
        byte_offset_ptr

  -- Where a read begins: at the current position, where no offset is passed or it is negative, else
  -- at the offset.
  abbrev pub Begins : ℕ → Type 0
  Begins o =
      (((byte_offset_ptr ≡ 0) ⊎ (2 ^ 63 ≤ load_u64 s.kernel.mem byte_offset_ptr))
        × (o ≡ io.ftell h f.fp))
      ⊎ ((byte_offset_ptr ≢ 0)
          × (load_u64 s.kernel.mem byte_offset_ptr < 2 ^ 63)
          × (o ≡ load_u64 s.kernel.mem byte_offset_ptr))

  -- The bytes that the file has from an offset on, at most `len` of them.
  abbrev pub available_from : ℕ → List ℕ
  available_from o = take len (drop o (contents h f.fp))

  -- The stream behind the seek, and what it has from there on.
  abbrev pub start : H
  start = seek_offset io s.kernel.mem h f.fp byte_offset_ptr

  abbrev pub available : List ℕ
  available = take len (drop (io.ftell start f.fp) (contents start f.fp))

  start-Begins : Begins (io.ftell start f.fp) × (contents start f.fp ≡ contents h f.fp)
  unfolding seek_offset
  start-Begins =
      let w = load_u64 s.kernel.mem byte_offset_ptr in
      elim (Bool-cases (byte_offset_ptr == 0)) [
        | inl e ↦ rw e (inl (inl (ground arith), refl), refl)
        | inr e ↦ elim (Bool-cases (ltb w (2 ^ 63))) [
          | inl l ↦
              rw (e, l)
                (
                  inr (ground arith, ground arith, v.tell_seek h f.fp w (ground arith)),
                  v.seek_contents h f.fp w,
                )
          | inr g ↦ rw (e, g) (inl (inr (ground arith), refl), refl)
        ]
      ]

  result-eq : result ≡ (
      let r =
        finish_read s
          (io.fread start f.fp len).0
          event_handle
          apc_routine
          apc_context
          io_status_block
          buffer
          len in
      (r.0, r.1, (io.fread start f.fp len).1))
  unfolding nt_read_file
  result-eq = rw (at, nt_read_file) refl

  available-bytes : All (λ b. b < 256) available
  available-bytes =
      All-take len _ (All-drop (io.ftell start f.fp) (contents start f.fp) (v.bytes start f.fp))

  transfers :
      Apart io_status_block buffer len
      → (bytes_at result.1.kernel.mem buffer (length available) ≡ available)
        × (io.ftell result.2 f.fp ≡ io.ftell start f.fp + length available)
        × (result.1.apc_queue ≡ (
            if apc_routine == 0
            then s.apc_queue
            else s.apc_queue
              ++ record { routine = apc_routine; context = apc_context; iosb = io_status_block }
                ∷ []))
  transfers apart =
      let read = v.read_bytes start f.fp len in
      let short : length (io.fread start f.fp len).0 ≤ len =
        rw read
          (omega (arith, length-take len (drop (io.ftell start f.fp) (contents start f.fp)))) in
      rw result-eq (
        rw (← read) (
            finish_read-bytes s (io.fread start f.fp len).0 event_handle apc_routine apc_context
              io_status_block buffer len short apart (rw read available-bytes)),
        v.read_tell start f.fp len ∙ ap (λ (xs : List ℕ). io.ftell start f.fp + length xs) read,
        finish_read-queue s (io.fread start f.fp len).0 event_handle apc_routine apc_context
            io_status_block buffer len,
      )

  -- NtReadFile on an open file, with a buffer apart from the status block: where the guest passes
  -- no byte offset or a negative one, the read begins at the file's position, else at the offset;
  -- the guest's buffer holds the bytes that the file has from there on, up to the length; the
  -- position stays behind them; where the guest passed an APC routine, a call of it stands at the
  -- end of the thread's queue.
  pub nt_read_file-transfers :
      Apart io_status_block buffer len
      → (o : ℕ) × Begins o
        × (bytes_at result.1.kernel.mem buffer (length (available_from o)) ≡ available_from o)
        × (io.ftell result.2 f.fp ≡ o + length (available_from o))
        × (result.1.apc_queue ≡ (
            if apc_routine == 0
            then s.apc_queue
            else s.apc_queue
              ++ record { routine = apc_routine; context = apc_context; iosb = io_status_block }
                ∷ []))
  nt_read_file-transfers apart =
      let (bytes, tell, queue) = transfers apart in
      let (begins, same) = start-Begins in
      (io.ftell start f.fp, begins, rw same at bytes, rw same at tell, queue)

  -- The status that NtReadFile returns for an open file: end of file where nothing is left to be
  -- read and something was asked for, else pending where the guest passed an APC routine, and
  -- success where it passed none.
  pub nt_read_file-status :
      ((available ≡ []) × (len ≢ 0) × (result.0 ≡ status_end_of_file))
      ⊎ (((available ≢ []) ⊎ (len ≡ 0)) × (apc_routine ≡ 0) × (result.0 ≡ status_success))
      ⊎ (((available ≢ []) ⊎ (len ≡ 0)) × (apc_routine ≢ 0) × (result.0 ≡ status_pending))
  nt_read_file-status =
      rw (result-eq, ← v.read_bytes start f.fp len)
        (finish_read-status s (io.fread start f.fp len).0 event_handle apc_routine apc_context
          io_status_block buffer len)
