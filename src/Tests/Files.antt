-- ===== src/Tests/Files.antt =====
-- Files and formatted text.
use wosrecomp.Base.{
  ℕ, ◌+◌, ◌*◌, ◌≤◌, ◌<◌, ◌≡◌, ◌⊎◌, inr, refl, true, some, List, [], ◌∷◌, length, take, drop, arith,
}
use wosrecomp.Guest.{Mem, load_u64, store_u64, store_byte, copy_in, copy_out, status_success}
use wosrecomp.Guest.Word.{bswap32, bswap64}
use wosrecomp.Guest.Laws.{SameOutside}
use wosrecomp.Heap.{Heap, Commit}
use wosrecomp.Heap
use wosrecomp.Heap.Blocks.{start-IsValid}
use wosrecomp.Objects.{
  FileObject, no_objects, file, object_from_any, object_from_handle, object_from_guest_ptr, or_else,
  body_at, body_of,
}
use wosrecomp.Objects.Handles.{IsRegistry}
use wosrecomp.Sync.{Kernel}
use wosrecomp.Paths.{bytes_at}
use wosrecomp.Apc.{State}
use wosrecomp.Files.{
  Stdio, file_at, file_named, file_body, file_position_information, nt_query_information_file,
  nt_set_information_file,
}
use wosrecomp.Files.Streams.{IsStdio}
use wosrecomp.Files.Requests.{set_position-query_position}
use wosrecomp.Files.Reads.{result, Begins, available_from, nt_read_file-transfers}
use wosrecomp.Format.{va_list, register_args, Print, format_guest, max_format}
use wosrecomp.Format.Limits.{format_guest-ends}
use wosrecomp.Format.Calls.{minus_one, vsnprintf, vsnprintf-inside}

-- A host with one file of three bytes, whose state is the position.
abbrev three_bytes : List ℕ
three_bytes = 65 ∷ 66 ∷ 67 ∷ []

abbrev host : Stdio ℕ
host = record {
  fopen = λ h path. some (1, 0);
  fclose = λ h fp. h;
  ftell = λ h fp. h;
  fseek_set = λ h fp pos. pos;
  fseek_end = λ h fp. 3;
  fread = λ h fp n. (take n (drop h three_bytes), h + length (take n (drop h three_bytes)));
}

abbrev contents : ℕ → ℕ → List ℕ
contents h fp = three_bytes

host-IsStdio : IsStdio host contents
host-IsStdio = record {
  tell_seek = λ h fp pos l. refl;
  tell_end = λ h fp. refl;
  seek_contents = λ h fp pos. refl;
  end_contents = λ h fp. refl;
  read_bytes = λ h fp n. refl;
  read_tell = λ h fp n. refl;
  bytes = λ h fp. (omega arith, (omega arith, (omega arith, tt)));
  small = λ h fp. omega arith;
}

-- That file, behind the handle 4.
abbrev opened : FileObject
opened = record { fp = 1; guest_path = 97 ∷ []; host_path = 97 ∷ [] }

abbrev one_file : Kernel
one_file = record {
  mem = store_u64 (λ a. 0) 0x1000 1;
  heap = Heap.start;
  objects = record {
    store = record { handle = 4; guest_ptr = 0x4000_0000; body = file opened } ∷ [];
    by_handle = (4, 0) ∷ [];
    by_guest_ptr = (0x4000_0000, 0) ∷ [];
    pseudo = [];
    next_handle = 8;
  };
  event_count = 0;
  next_thread_id = 0x1000;
}

file_at-four : file_at one_file 4 ≡ some opened
unfolding file_at file_named file_body object_from_any object_from_handle object_from_guest_ptr
    or_else body_at body_of
file_at-four = refl

position_one : load_u64 one_file.mem 0x1000 ≡ 1
unfolding load_u64 store_u64 copy_out copy_in store_byte bswap64 bswap32
position_one = refl

set_position-query_position_example :
    let s = nt_set_information_file host one_file 0 4 0 0x1000 file_position_information in
    let r = nt_query_information_file host s.1 s.2 4 0x3000 0x2000 8 file_position_information in
    (s.0 ≡ status_success) × (r.0 ≡ status_success) × (load_u64 r.1.mem 0x2000 ≡ 1)
set_position-query_position_example =
    set_position-query_position host contents host-IsStdio one_file 0 4 0 0x1000 0x3000 0x2000 8 1
      opened file_at-four position_one (omega arith) (omega arith) (omega arith)
      (inr (omega arith, inr (omega arith)))

abbrev reader : State
reader = record { kernel = one_file; apc_queue = [] }

nt_read_file-transfers_example :
    let r =
      result host contents host-IsStdio reader 0 4 0 0x82B1_6659 7 0x3000 0x2000 8 0x1000 opened
        file_at-four in
    let got =
      available_from host contents host-IsStdio reader 0 4 0 0x82B1_6659 7 0x3000 0x2000 8 0x1000
        opened file_at-four in
    (o : ℕ) × Begins host contents host-IsStdio reader 0 4 0 0x82B1_6659 7 0x3000 0x2000 8 0x1000
      opened file_at-four o
    × (bytes_at r.1.kernel.mem 0x2000 (length (got o)) ≡ got o)
    × (r.2 ≡ o + length (got o))
    × (r.1.apc_queue ≡ record { routine = 0x82B1_6659; context = 7; iosb = 0x3000 } ∷ [])
nt_read_file-transfers_example =
    nt_read_file-transfers host contents host-IsStdio reader 0 4 0 0x82B1_6659 7 0x3000 0x2000 8
      0x1000 opened file_at-four (inr (omega arith, inr (omega arith)))

abbrev agrees : Commit
agrees addr size = true

abbrev fresh_kernel : Kernel
fresh_kernel = record one_file { objects = no_objects }

empty-IsRegistry : IsRegistry no_objects Heap.start
empty-IsRegistry = record {
  heap = start-IsValid;
  handles = tt;
  low_handles = omega arith;
  pointers = tt;
}

-- A host's snprintf that prints any argument as "1".
abbrev prints_one : Print
prints_one spec a = 49 ∷ []

-- "%d%"
abbrev one_directive : List ℕ
one_directive = 37 ∷ 100 ∷ 37 ∷ []

format_guest-ends_example :
    (final : List ℕ) × (format_guest prints_one (λ a. 0) one_directive (register_args (7 ∷ []) 0)
      ≡ some final)
    × (length final ≤ 1023 * 3)
    × (length final ≤ 1023 * max_format)
format_guest-ends_example =
    format_guest-ends prints_one (λ a. 0) one_directive (register_args (7 ∷ []) 0)

vsnprintf-inside_example :
    (formatted : List ℕ) × (m' : Mem) × (status : ℕ) × (format_guest prints_one
        (λ a. 0)
        one_directive
        (va_list 0x2000)
      ≡ some formatted)
    × (vsnprintf prints_one (λ a. 0) 0x1000 8 0x3000 one_directive 0x2000 ≡ some (status, m'))
    × SameOutside 0x1000 8 (λ a. 0) m'
    × (((8 ≤ length formatted) × (status ≡ minus_one))
        ⊎ ((length formatted < 8) × (status ≡ length formatted)))
vsnprintf-inside_example =
    vsnprintf-inside prints_one (λ a. 0) 0x1000 8 0x3000 one_directive 0x2000 (omega arith)
      (omega arith) (omega arith) (omega arith)
