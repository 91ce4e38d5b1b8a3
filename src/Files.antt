-- ===== src/Files.antt =====
-- Open files, WoSRecomp/kernel/file.cpp: the imports that open, query, position and read them. The
-- host's streams are a parameter: `Stdio` has a name for each function of the C library that the
-- code calls, on a state of the host of any type. A 64-bit offset is its bit pattern.
pub mod Streams
pub mod Requests
pub mod Reads
pub mod Opens
use wosrecomp.Base.{
  ℕ, zero, suc, ◌+◌, ◌*◌, ◌^◌, Bool, true, false, if◌then◌else◌, ltb, ◌==◌, Option, none, some,
  List, [], ◌∷◌, length, u32, u64, ◌&&◌, not,
}
use wosrecomp.Guest.{
  Mem, store_byte, load_u64, store_u32, store_u64, store_words, status_success, status_pending,
  status_invalid_handle, status_no_memory, status_no_such_file, status_object_path_not_found,
}
use wosrecomp.Heap.{Commit}
use wosrecomp.Events.{Event, signal}
use wosrecomp.Objects.{
  Body, Objects, FileObject, event, mutant, thread, file, plain, object_from_any, body_at,
  register_object,
}
use wosrecomp.Sync.{Kernel, event_at, replace, store_out}
use wosrecomp.Paths.{read_object_name, resolve_guest_path}
use wosrecomp.Apc.{State, queue_thread_apc, is_empty}

-- The functions of the C library on streams: `fopen` to read, `fclose`, `ftello`, `fseeko` from the
-- start and to the end, and `fread`.
pub record Stdio (H : Type 0) : Type 0 where
  pub fopen : H → List ℕ → Option (ℕ × H)
  pub fclose : H → ℕ → H
  pub ftell : H → ℕ → ℕ
  pub fseek_set : H → ℕ → ℕ → H
  pub fseek_end : H → ℕ → H
  pub fread : H → ℕ → ℕ → List ℕ × H

abbrev pub file_standard_information : ℕ
file_standard_information = 5

abbrev pub file_position_information : ℕ
file_position_information = 14

abbrev pub file_network_open_information : ℕ
file_network_open_information = 34

abbrev pub status_end_of_file : ℕ
status_end_of_file = 0xC000_0011

abbrev pub status_info_length_mismatch : ℕ
status_info_length_mismatch = 0xC000_0004

abbrev pub status_invalid_info_class : ℕ
status_invalid_info_class = 0xC000_0003

-- `dynamic_cast<FileObject*>` of what a handle or pointer names.
unfoldable pub file_body : Option Body → Option FileObject
file_body none = none
file_body (some (event e)) = none
file_body (some (mutant m)) = none
file_body (some (thread t)) = none
file_body (some (file f)) = some f
file_body (some plain) = none

unfoldable pub file_named : Objects → Option ℕ → Option FileObject
file_named os none = none
file_named os (some id) = file_body (body_at os id)

unfoldable pub file_at : Kernel → ℕ → Option FileObject
file_at k handle_or_ptr = file_named k.objects (object_from_any k.objects handle_or_ptr)

-- An IO_STATUS_BLOCK, where the guest passed one.
unfoldable pub store_status : Kernel → ℕ → ℕ → ℕ → Kernel
store_status k io_status_block status information =
    if io_status_block == 0
    then k
    else record k { mem = store_words k.mem io_status_block ((0, status) ∷ (4, information) ∷ []) }

-- `SignalEventIfAny`.
unfoldable pub signal_event_if_any : Kernel → ℕ → Kernel
signal_event_if_any k handle_or_ptr =
    if handle_or_ptr == 0 then k else elim (event_at k handle_or_ptr) [
      | none ↦ k
      | some (id, e) ↦ replace k id (event (signal e 0))
    ]

-- What `fread` leaves in guest memory from `base + buffer` on.
unfoldable pub write_bytes : Mem → ℕ → List ℕ → Mem
write_bytes m p [] = m
write_bytes m p (b ∷ bytes) = write_bytes (store_byte m p b) (p + 1) bytes

unfoldable pub store_u64s : Mem → ℕ → List (ℕ × ℕ) → Mem
store_u64s m addr [] = m
store_u64s m addr ((offset, value) ∷ rest) =
    store_u64s (store_u64 m (addr + offset) value) addr rest

unfoldable pub queue_completion : State → ℕ → ℕ → ℕ → State
queue_completion s apc_routine apc_context io_status_block =
    if apc_routine == 0 then s else queue_thread_apc s apc_routine apc_context io_status_block

-- The end of NtReadFile, behind `fread`.
unfoldable pub finish_read : State → List ℕ → ℕ → ℕ → ℕ → ℕ → ℕ → ℕ → ℕ × State
finish_read s bytes event_handle apc_routine apc_context io_status_block buffer len =
    let at_end = is_empty bytes && not (len == 0) in
    let k = record s.kernel { mem = write_bytes s.kernel.mem buffer bytes } in
    let k' =
      store_status k io_status_block (if at_end then status_end_of_file else status_success)
        (u32 (length bytes)) in
    (
      if at_end
          then status_end_of_file
          else if apc_routine == 0
          then status_success
          else status_pending,
      queue_completion (record s { kernel = signal_event_if_any k' event_handle }) apc_routine
          apc_context io_status_block,
    )

-- NtOpenFile reports the path and fails.
unfoldable pub nt_open_file : Kernel → ℕ × Kernel
nt_open_file k = (status_no_such_file, k)

module _ {H : Type 0} (io : Stdio H) where
  -- `FileSize`: the stream is left where it was.
  unfoldable pub file_size : H → ℕ → ℕ × H
  file_size h fp =
      let saved = io.ftell h fp in
      let h₁ = io.fseek_end h fp in
      let size = io.ftell h₁ fp in (if ltb size (2 ^ 63) then size else 0, io.fseek_set h₁ fp saved)

  -- NtCreateFile(r3 = handle out, r5 = object attributes, r6 = status block); `root_known` tells
  -- whether there is a game root. A file that no handle could be had for is closed again.
  unfoldable pub open_failed : Kernel → H → ℕ → ℕ → ℕ × Kernel × H
  open_failed k h io_status_block status = (status, store_status k io_status_block status 0, h)

  unfoldable pub register_file : Commit → Kernel → H → ℕ → ℕ → FileObject → ℕ × Kernel × H
  register_file commit k h handle_out io_status_block f =
      let (handle, os, heap) = register_object commit k.objects k.heap (file f) in
      let k' = record k { objects = os; heap = heap } in
      if handle == 0 then open_failed k' (io.fclose h f.fp) io_status_block status_no_memory else (
        status_success,
        store_status (store_out k' handle_out handle) io_status_block status_success 1,
        h,
      )

  unfoldable pub open_stream :
      Commit → Kernel → H → ℕ → ℕ → List ℕ → List ℕ → Option (ℕ × H) → ℕ × Kernel × H
  open_stream commit k h handle_out io_status_block guest_path host_path none =
      open_failed k h io_status_block status_no_such_file
  open_stream commit k h handle_out io_status_block guest_path host_path (some (fp, h')) =
      register_file commit k h' handle_out io_status_block
        (record { fp = fp; guest_path = guest_path; host_path = host_path })

  unfoldable pub open_file : Commit → Kernel → H → ℕ → ℕ → List ℕ → Option (List ℕ) → ℕ × Kernel × H
  open_file commit k h handle_out io_status_block guest_path none =
      open_failed k h io_status_block status_no_such_file
  open_file commit k h handle_out io_status_block guest_path (some host_path) =
      open_stream commit k h handle_out io_status_block guest_path host_path (io.fopen h host_path)

  unfoldable pub nt_create_file : Commit → Bool → Kernel → H → ℕ → ℕ → ℕ → ℕ × Kernel × H
  nt_create_file commit root_known k h handle_out object_attributes io_status_block =
      let guest_path = read_object_name k.mem object_attributes in
      if is_empty guest_path
      then open_failed k h io_status_block status_object_path_not_found
      else open_file commit k h handle_out io_status_block guest_path
          (resolve_guest_path root_known guest_path)

  -- What NtQueryInformationFile writes for a class on an open file: the least length, then the
  -- memory with the bytes written; none for a class that is not handled.
  unfoldable pub information : Mem → H → ℕ → ℕ → ℕ → Option (ℕ × Mem × H)
  information m h fp info_out info_class =
      let (size, h') = file_size h fp in
      if info_class == file_standard_information
      then some (
        24,
        store_words (store_u64s m info_out ((0, size) ∷ (8, size) ∷ [])) info_out
            ((16, 1) ∷ (20, 0) ∷ []),
        h',
      )
      else if info_class == file_position_information
      then some (8, store_u64 m info_out (io.ftell h fp), h)
      else if info_class == file_network_open_information
      then some (
        56,
        store_words
            (store_u64s m info_out
              ((0, 0) ∷ (8, 0) ∷ (16, 0) ∷ (24, 0) ∷ (32, size) ∷ (40, size) ∷ []))
            info_out ((48, 0x80) ∷ []),
        h',
      )
      else none

  -- NtQueryInformationFile(r3 = handle, r4 = status block, r5 = information, r6 = length, r7 =
  -- class).
  unfoldable pub nt_query_information_file : Kernel → H → ℕ → ℕ → ℕ → ℕ → ℕ → ℕ × Kernel × H
  nt_query_information_file k h handle io_status_block info_out length info_class =
      elim (file_at k handle) [
        | none ↦ (status_invalid_handle, k, h)
        | some f ↦ elim (information k.mem h f.fp info_out info_class) [
          | none ↦ (status_invalid_info_class, k, h)
          | some (written, m, h') ↦
              if ltb length written then (status_info_length_mismatch, k, h) else (
                status_success,
                store_status (record k { mem = m }) io_status_block status_success written,
                h',
              )
        ]
      ]

  -- NtSetInformationFile(r3 = handle, r4 = status block, r5 = information, r7 = class).
  unfoldable pub nt_set_information_file : Kernel → H → ℕ → ℕ → ℕ → ℕ → ℕ × Kernel × H
  nt_set_information_file k h handle io_status_block info_in info_class = elim (file_at k handle) [
    | none ↦ (status_invalid_handle, k, h)
    | some f ↦ (
      status_success,
      store_status k io_status_block status_success 0,
      if info_class == file_position_information
          then io.fseek_set h f.fp (load_u64 k.mem info_in)
          else h,
    )
  ]

  -- A ByteOffset that is negative means the current position.
  unfoldable pub seek_offset : Mem → H → ℕ → ℕ → H
  seek_offset m h fp byte_offset_ptr =
      if byte_offset_ptr == 0
      then h
      else if ltb (load_u64 m byte_offset_ptr) (2 ^ 63)
      then io.fseek_set h fp (load_u64 m byte_offset_ptr)
      else h

  -- NtReadFile(r3 = handle, r4 = event, r5 = APC routine, r6 = its context, r7 = status block, r8 =
  -- buffer, r9 = length, r10 = byte offset).
  unfoldable pub nt_read_file : State → H → ℕ → ℕ → ℕ → ℕ → ℕ → ℕ → ℕ → ℕ → ℕ × State × H
  nt_read_file s h handle event_handle apc_routine apc_context io_status_block buffer len
        byte_offset_ptr =
      elim (file_at s.kernel handle) [
        | none ↦ (status_invalid_handle, s, h)
        | some f ↦
            let (bytes, h') = io.fread (seek_offset s.kernel.mem h f.fp byte_offset_ptr) f.fp len in
            let (status, s') =
              finish_read s bytes event_handle apc_routine apc_context io_status_block buffer len in
            (status, s', h')
      ]
