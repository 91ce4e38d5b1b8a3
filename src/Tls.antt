-- ===== src/Tls.antt =====
-- Thread-local storage, WoSRecomp/kernel/thread.cpp: the slots are shared by all threads, the
-- values are each thread's own.
pub mod Slots
use wosrecomp.Base.{
  ℕ, zero, suc, ◌+◌, ◌^◌, Bool, true, false, ◌&&◌, if◌then◌else◌, ltb, ◌==◌, Option, none, some,
  List, [], ◌∷◌, replicate, set, u32,
}

abbrev pub max_tls_slots : ℕ
max_tls_slots = 128

abbrev pub tls_out_of_indexes : ℕ
tls_out_of_indexes = 0xFFFF_FFFF

-- `g_tlsSlotUsed`, and `t_tlsValues` by thread and slot.
pub record Tls : Type 0 where
  pub slot_used : List Bool
  pub values : ℕ → ℕ → ℕ

abbrev pub no_slots : Tls
no_slots = record { slot_used = replicate max_tls_slots false; values = λ thread slot. 0 }

-- The first slot that is not used, from the front of the list on.
unfoldable pub first_free : List Bool → Option ℕ
first_free [] = none
first_free (false ∷ slots) = some 0
first_free (true ∷ slots) = elim (first_free slots) [ none ↦ none | some i ↦ some (suc i) ]

-- KeTlsAlloc.
unfoldable pub ke_tls_alloc : Tls → ℕ × Tls
ke_tls_alloc t = elim (first_free t.slot_used) [
  | none ↦ (tls_out_of_indexes, t)
  | some i ↦ (i, record t { slot_used = set t.slot_used i true })
]

-- KeTlsFree(r3 = slot).
unfoldable pub ke_tls_free : Tls → ℕ → ℕ × Tls
ke_tls_free t slot =
    if ltb slot max_tls_slots
    then (1, record t { slot_used = set t.slot_used slot false })
    else (1, t)

-- KeTlsGetValue(r3 = slot) on a thread.
unfoldable pub ke_tls_get_value : Tls → ℕ → ℕ → ℕ
ke_tls_get_value t thread slot = if ltb slot max_tls_slots then t.values thread slot else 0

-- KeTlsSetValue(r3 = slot, r4 = value) on a thread.
unfoldable pub ke_tls_set_value : Tls → ℕ → ℕ → ℕ → ℕ × Tls
ke_tls_set_value t thread slot value =
    if ltb slot max_tls_slots
    then (
      1,
      record t { values = λ th s. if th == thread && s == slot then u32 value else t.values th s },
    )
    else (0, t)
