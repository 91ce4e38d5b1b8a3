-- ===== src/Files/Opens.antt =====
-- What NtCreateFile opens, and what it leaves when it fails.
use wosrecomp.Base.{
  ℕ, ◌<◌, ◌≡◌, ◌≢◌, ◌⊎◌, inl, inr, refl, ap, ◌∙◌, Bool, Bool-cases, Option, none, some, List, arith,
  ◌==◌,
}
use wosrecomp.Guest.{
  status_success, status_no_memory, status_no_such_file, status_object_path_not_found,
}
use wosrecomp.Heap.{Heap, Commit}
use wosrecomp.Objects.{FileObject, Objects, file, object_from_any, register_object}
use wosrecomp.Objects.Handles.{IsRegistry}
use wosrecomp.Objects.Named.{register_object-names}
use wosrecomp.Sync.{Kernel, store_out}
use wosrecomp.Paths.{read_object_name, resolve_guest_path}
use wosrecomp.Paths.Resolved.{IsHostPath, resolve_guest_path-IsHostPath}
use wosrecomp.Apc.{is_empty}
use wosrecomp.Files.{
  Stdio, file_at, file_named, file_body, store_status, open_failed, register_file, open_stream,
  open_file, nt_create_file,
}

module _ {H : Type 0} (io : Stdio H) (commit : Commit) (root_known : Bool) (k : Kernel) (h : H)
    (handle_out object_attributes io_status_block : ℕ) (v : IsRegistry k.objects k.heap) where
  abbrev pub guest_path : List ℕ
  guest_path = read_object_name k.mem object_attributes

  -- The new handle names a file whose stream the host opened at the path that the guest's name
  -- stands for, relative to the game's root and without a backslash.
  pub record IsOpened (k' : Kernel) (h' : H) : Type 0 where
    pub opened : FileObject
    pub named : file_at k' k.objects.next_handle ≡ some opened
    pub resolved : resolve_guest_path root_known guest_path ≡ some opened.host_path
    pub relative : IsHostPath opened.host_path
    pub stream : io.fopen h opened.host_path ≡ some (opened.fp, h')

  abbrev pub IsAnswer : ℕ × Kernel × H → Type 0
  IsAnswer r =
      ((r.0 ≡ status_success) × IsOpened r.1 r.2)
      ⊎ ((r.0 ≢ status_success)
          × ((handle : ℕ) → object_from_any r.1.objects handle ≡ object_from_any k.objects handle))

  store_status-objects :
      (k' : Kernel) (status information : ℕ)
      → (store_status k' io_status_block status information).objects ≡ k'.objects
  unfolding store_status
  store_status-objects k' status information = ground arith

  store_out-objects : (k' : Kernel) (out value : ℕ) → (store_out k' out value).objects ≡ k'.objects
  unfolding store_out
  store_out-objects k' out value = ground arith

  failed :
      (k' : Kernel) (h' : H) (status : ℕ)
      → k'.objects ≡ k.objects
      → status ≢ status_success
      → IsAnswer (open_failed io k' h' io_status_block status)
  unfolding open_failed
  failed k' h' status same bad = inr (
    bad,
    λ handle. ap (λ os. object_from_any os handle) (store_status-objects k' status 0 ∙ same),
  )

  module _ (f : FileObject) where
    unfoldable registered : ℕ × Objects × Heap
    registered = register_object commit k.objects k.heap (file f)

    abbrev grown : Kernel
    grown = record k { objects = registered.1; heap = registered.2 }

    refused : 0 < k.objects.next_handle → registered.0 ≡ 0 → registered.1 ≡ k.objects
    unfolding registered register_object
    refused next none_given = ground (arith, none_given)

    named-file :
        registered.0 ≢ 0
        → file_at
            (store_status
              (store_out grown handle_out registered.0)
              io_status_block
              status_success
              1)
            k.objects.next_handle
          ≡ some f
    unfolding file_at file_named file_body registered
    named-file done =
        let (_, any, here, _) = register_object-names commit k.objects k.heap (file f) v done in
        let os : Objects = (register_object commit k.objects k.heap (file f)).1 in
        ap (λ os. file_named os (object_from_any os k.objects.next_handle))
          (store_status-objects (store_out grown handle_out registered.0) status_success 1
            ∙ store_out-objects grown handle_out registered.0)
        ∙ ap (file_named os) any
        ∙ ap file_body here

    register_file-IsAnswer :
        (h' : H)
        → 0 < k.objects.next_handle
        → resolve_guest_path root_known guest_path ≡ some f.host_path
        → io.fopen h f.host_path ≡ some (f.fp, h')
        → IsAnswer (register_file io commit k h' handle_out io_status_block f)
    unfolding register_file registered
    register_file-IsAnswer h' next e o = elim (Bool-cases (registered.0 == 0)) [
      | inl none_given ↦ rw none_given (
          failed grown (io.fclose h' f.fp) status_no_memory
            (refused next (ground (arith, none_given))) (λ e. ground (arith, e)))
      | inr given ↦ rw given (
          inl (
            refl,
            record {
              opened = f;
              named = named-file (λ z. ground (arith, z, given));
              resolved = e;
              relative = resolve_guest_path-IsHostPath root_known guest_path f.host_path e;
              stream = o;
            },
          ))
    ]

  open_stream-IsAnswer :
      (p : List ℕ) (o : Option (ℕ × H))
      → 0 < k.objects.next_handle
      → resolve_guest_path root_known guest_path ≡ some p
      → io.fopen h p ≡ o
      → IsAnswer (open_stream io commit k h handle_out io_status_block guest_path p o)
  unfolding open_stream
  open_stream-IsAnswer p none next e o =
      failed k h status_no_such_file refl (λ e. ground (arith, e))
  open_stream-IsAnswer p (some (fp, h')) next e o =
      register_file-IsAnswer (record { fp = fp; guest_path = guest_path; host_path = p }) h' next e
        o

  open_file-IsAnswer :
      (p : Option (List ℕ))
      → 0 < k.objects.next_handle
      → resolve_guest_path root_known guest_path ≡ p
      → IsAnswer (open_file io commit k h handle_out io_status_block guest_path p)
  unfolding open_file
  open_file-IsAnswer none next e = failed k h status_no_such_file refl (λ e. ground (arith, e))
  open_file-IsAnswer (some p) next e = open_stream-IsAnswer p (io.fopen h p) next e refl

  -- NtCreateFile, on a registry in order with a next handle that is not 0: either it succeeds and
  -- the next handle names a file, opened by the host at the relative path that the guest's name
  -- stands for; or it fails, and every handle and pointer names what it named.
  pub nt_create_file-IsAnswer :
      0 < k.objects.next_handle
      → IsAnswer
          (nt_create_file io commit root_known k h handle_out object_attributes io_status_block)
  unfolding nt_create_file
  nt_create_file-IsAnswer next = elim (Bool-cases (is_empty guest_path)) [
    | inl e ↦ rw e (failed k h status_object_path_not_found refl (λ e. ground (arith, e)))
    | inr e ↦ rw e (open_file-IsAnswer (resolve_guest_path root_known guest_path) next refl)
  ]
