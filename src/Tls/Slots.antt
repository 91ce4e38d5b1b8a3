-- ===== src/Tls/Slots.antt =====
-- Which slots are handed out, and what a thread reads from them.
use wosrecomp.Base.{
  ℕ, zero, suc, ◌%◌, ◌^◌, ◌<◌, ◌≡◌, ◌≢◌, ◌⊎◌, inl, inr, refl, ap, ◌∙◌, Bool, true, false,
  if◌then◌else◌, ltb, Option, Option-cases, Bool-cases, none, some, List, [], ◌∷◌, set, get_or,
  length, All, get_or-set_self, get_or-set_ne, arith,
}
use wosrecomp.Tls.{
  Tls, max_tls_slots, tls_out_of_indexes, first_free, ke_tls_alloc, ke_tls_free, ke_tls_get_value,
  ke_tls_set_value,
}

-- A slot that the search finds is in the list, and not used.
first_free-found :
    (slots : List Bool) (i : ℕ)
    → first_free slots ≡ some i
    → (i < length slots) × (get_or slots i true ≡ false)
unfolding first_free
first_free-found [] i e = ground (arith, e)
first_free-found (false ∷ slots) zero e = (omega arith, refl)
first_free-found (false ∷ slots) (suc i) e = ground (arith, e)
first_free-found (true ∷ slots) zero e = elim (Option-cases (first_free slots)) [
  | inl n ↦ ground (arith, e, n)
  | inr (j, n) ↦ ground (arith, e, n)
]
first_free-found (true ∷ slots) (suc i) e = elim (Option-cases (first_free slots)) [
  | inl n ↦ ground (arith, e, n)
  | inr (j, n) ↦
      let same : j ≡ i = ground (arith, e, n) in
      let rest = first_free-found slots i (n ∙ ap some same) in (omega (arith, rest), rest.1)
]

-- The search fails only when every slot is used.
first_free-full : (slots : List Bool) → first_free slots ≡ none → All (λ b. b ≡ true) slots
unfolding first_free
first_free-full [] e = tt
first_free-full (false ∷ slots) e = ground (arith, e)
first_free-full (true ∷ slots) e = elim (Option-cases (first_free slots)) [
  | inl n ↦ (refl, first_free-full slots n)
  | inr (j, n) ↦ ground (arith, e, n)
]

-- KeTlsAlloc either finds all slots used, says so and changes nothing, or hands out a slot that
-- was not used; that slot is used from then on, and another slot `j` is as it was.
pub ke_tls_alloc-fresh :
    (t : Tls) (j : ℕ)
    → j ≢ (ke_tls_alloc t).0
    → ((ke_tls_alloc t ≡ (tls_out_of_indexes, t)) × All (λ b. b ≡ true) t.slot_used)
      ⊎ (((ke_tls_alloc t).0 < length t.slot_used)
          × (get_or t.slot_used (ke_tls_alloc t).0 true ≡ false)
          × (get_or (ke_tls_alloc t).1.slot_used (ke_tls_alloc t).0 true ≡ true)
          × (get_or (ke_tls_alloc t).1.slot_used j true ≡ get_or t.slot_used j true))
ke_tls_alloc-fresh t j other = elim (Option-cases (first_free t.slot_used)) [
  | inl e ↦ inl (unfold ke_tls_alloc in ground (arith, e), first_free-full t.slot_used e)
  | inr (i, e) ↦
      let there : ke_tls_alloc t ≡ (i, record t { slot_used = set t.slot_used i true }) =
        unfold ke_tls_alloc in ground (arith, e) in
      let found = first_free-found t.slot_used i e in
      let apart : i ≢ j = λ x. other (omega (arith, x, ap (λ (r : ℕ × Tls). r.0) there)) in
      inr (
        rw there (
          found.0,
          found.1,
          get_or-set_self t.slot_used i true true found.0,
          get_or-set_ne t.slot_used i j true true apart,
        ))
]

-- A thread reads back what it stored in a slot, and no other thread, and no other slot, sees it.
pub ke_tls_set_value-get :
    (t : Tls) (thread slot value thread' slot' : ℕ)
    → slot < max_tls_slots
    → (thread' ≢ thread) ⊎ (slot' ≢ slot)
    → (ke_tls_get_value (ke_tls_set_value t thread slot value).1 thread slot ≡ value % 2 ^ 32)
      × (ke_tls_get_value (ke_tls_set_value t thread slot value).1 thread' slot'
          ≡ ke_tls_get_value t thread' slot')
unfolding ke_tls_get_value ke_tls_set_value
ke_tls_set_value-get t thread slot value thread' slot' small other = (ground arith, ground arith)

ke_tls_alloc-values : (t : Tls) → (ke_tls_alloc t).1.values ≡ t.values
unfolding ke_tls_alloc
ke_tls_alloc-values t = values (first_free t.slot_used)
  where
    values :
        (o : Option ℕ)
        → (elim o as (λ _. ℕ × Tls) [
          | none ↦ (tls_out_of_indexes, t)
          | some i ↦ (i, record t { slot_used = set t.slot_used i true })
        ]).1.values
          ≡ t.values
    values none = refl
    values (some i) = refl

ke_tls_free-values : (t : Tls) (slot : ℕ) → (ke_tls_free t slot).1.values ≡ t.values
ke_tls_free-values t slot = elim (Bool-cases (ltb slot max_tls_slots)) [
  | inl e ↦ unfold ke_tls_free in rw e refl
  | inr e ↦ unfold ke_tls_free in rw e refl
]

-- Freeing a slot and allocating the next one leaves every value that any thread reads from any
-- slot.
pub ke_tls_free-keeps_values :
    (t : Tls) (freed thread slot : ℕ)
    → ke_tls_get_value (ke_tls_alloc (ke_tls_free t freed).1).1 thread slot
      ≡ ke_tls_get_value t thread slot
unfolding ke_tls_get_value
ke_tls_free-keeps_values t freed thread slot =
    ap (λ (v : ℕ → ℕ → ℕ). if ltb slot max_tls_slots then v thread slot else 0)
      (ke_tls_alloc-values (ke_tls_free t freed).1 ∙ ke_tls_free-values t freed)
