-- ===== src/Packets/Fuel.antt =====
-- The loop over a buffer ends by itself: a turn for each word is enough fuel.
use wosrecomp.Base.{
  ℕ, zero, suc, ◌+◌, ◌^◌, ◌≤◌, ◌<◌, ◌≡◌, refl, sym, ◌∙◌, inl, inr, none, some, Option-cases, arith,
}
use wosrecomp.Packets.{Gpu, Nested, packet_step, walk}

-- Each turn that goes on moves forward inside the buffer.
pub packet_step_forward :
    (nested : Nested) (g g' : Gpu) (buffer dwords i i' : ℕ)
    → dwords + 2 ^ 14 < 2 ^ 32
    → packet_step nested g buffer dwords i ≡ some (g', i')
    → (i < i') × (i' ≤ dwords)
unfolding packet_step
packet_step_forward nested g g' buffer dwords i i' small e = ground arith

-- At the end of the buffer the loop stops.
packet_step_end :
    (nested : Nested) (g : Gpu) (buffer dwords i : ℕ)
    → dwords ≤ i
    → packet_step nested g buffer dwords i ≡ none
unfolding packet_step
packet_step_end nested g buffer dwords i h = ground arith

module _ (nested : Nested) (fuel : ℕ) (g : Gpu) (buffer dwords i : ℕ) where
  pub walk_stop :
      packet_step nested g buffer dwords i ≡ none → walk nested (suc fuel) g buffer dwords i ≡ g
  unfolding walk
  walk_stop e = rw (e, walk) refl

  pub walk_go :
      (r : Gpu × ℕ)
      → packet_step nested g buffer dwords i ≡ some r
      → walk nested (suc fuel) g buffer dwords i ≡ walk nested fuel r.0 buffer dwords r.1
  unfolding walk
  walk_go r e = rw (e, walk) refl

-- A turn for each word left is enough fuel: more than that changes nothing, for a buffer whose
-- length is short of 2 ^ 32 by more than 2 ^ 14.
pub walk-enough :
    (nested : Nested) (fuel fuel' : ℕ) (g : Gpu) (buffer dwords i : ℕ)
    → dwords + 2 ^ 14 < 2 ^ 32
    → dwords ≤ i + fuel
    → fuel ≤ fuel'
    → walk nested fuel' g buffer dwords i ≡ walk nested fuel g buffer dwords i
unfolding walk
walk-enough nested zero zero g buffer dwords i small h k = refl
walk-enough nested (suc fuel) zero g buffer dwords i small h k = absurd (omega arith)
walk-enough nested zero (suc fuel') g buffer dwords i small h k =
    walk_stop nested fuel' g buffer dwords i
      (packet_step_end nested g buffer dwords i (omega arith))
walk-enough nested (suc fuel) (suc fuel') g buffer dwords i small h k =
    elim (Option-cases (packet_step nested g buffer dwords i)) [
      | inl e ↦
          walk_stop nested fuel' g buffer dwords i e
          ∙ sym (walk_stop nested fuel g buffer dwords i e)
      | inr (r, e) ↦
          let forward = packet_step_forward nested g r.0 buffer dwords i r.1 small e in
          walk_go nested fuel' g buffer dwords i r e
          ∙ walk-enough nested fuel fuel' r.0 buffer dwords r.1 small (omega (arith, forward))
              (omega arith)
          ∙ sym (walk_go nested fuel g buffer dwords i r e)
    ]
