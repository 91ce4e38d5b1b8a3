-- ===== src/Objects/Named.antt =====
-- The handle of an object that was just registered names it.
use wosrecomp.Base.{◌≤◌, ◌≡◌, ◌≢◌, refl, ap, some, arith, find-put_self, length, get_elem?-snoc}
use wosrecomp.Heap.{Heap, Commit}
use wosrecomp.Objects.{
  Body, Objects, register_object, object_from_handle, or_else, object_from_any, body_of, body_at,
}
use wosrecomp.Objects.Handles.{IsRegistry, grown, fresh, heap', result-eq}

module _ (commit : Commit) (os : Objects) (h : Heap) (body : Body) (v : IsRegistry os h) where
  abbrev after : Objects
  after = grown commit os h body v

  after-any : object_from_any after os.next_handle ≡ some (length os.store)
  unfolding object_from_any object_from_handle or_else
  after-any =
      ground (arith, find-put_self os.by_handle os.next_handle (length os.store), v.low_handles)

  after-body : body_at after (length os.store) ≡ some body
  unfolding body_at body_of
  after-body = ap body_of (
      get_elem?-snoc os.store
        (record { handle = os.next_handle; guest_ptr = (fresh commit os h body v).0; body = body }))

  -- In a registry that is in order, where registering succeeds: the handle is the next one, it
  -- names the new object, and the heap has grown.
  pub register_object-names :
      (register_object commit os h body).0 ≢ 0
      → let r = register_object commit os h body in
        (r.0 ≡ os.next_handle)
        × (object_from_any r.1 os.next_handle ≡ some (length os.store))
        × (body_at r.1 (length os.store) ≡ some body)
        × (h.next ≤ r.2.next)
  register_object-names done =
      let (_, e) = result-eq commit os h body v done in
      rw e (refl, after-any, after-body, (heap' commit os h body v).1)
