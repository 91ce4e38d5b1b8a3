-- ===== src/XexInfo/Disasm/Walk.antt =====
-- Where the first pass of `disasm` stops, and what it has seen by then.
use wosrecomp.Base.{
  ℕ, zero, suc, ◌+◌, ◌*◌, ◌^◌, ◌<◌, ◌≡◌, inl, inr, refl, true, false, ◌==◌, max, if◌then◌else◌,
  Bool-cases, Option-cases, none, some, List, [], ◌∷◌, ◌++◌, arith, u32,
}
use mathlib.Core.Path.{subst⁻¹}
use wosrecomp.XexInfo.Disasm.Turn.{
  leads, leads_from, EndsAt, IsWalk, Before, Before-start, Before-step, read_step, noted, stops_iff,
}
use wosrecomp.XexInfo.Disasm.{Walker, branch_target, is_call_insn, followed, stops_walk, walk_from}

module _ (w : Walker) (addr : ℕ) where
  leads_here :
      (i insn : ℕ)
      → w.word_at (addr + 4 * i) ≡ some insn
      → followed w.decoder (addr + 4 * i) insn ≡ leads w addr i
  unfolding leads leads_from followed is_call_insn branch_target
  leads_here i insn e = rw e (ground arith)

  module _ (fuel i furthest end : ℕ) (labels : List ℕ) where
    after : List ℕ
    after = if leads w addr i == 0 then labels else labels ++ leads w addr i ∷ []

    turn_unread :
        w.word_at (addr + 4 * i) ≡ none
        → walk_from (suc fuel) w (addr + 4 * i) furthest end labels ≡ (end, labels)
    unfolding walk_from
    turn_unread e = ground arith

    module _ (insn : ℕ) (e : w.word_at (addr + 4 * i) ≡ some insn) where
      turn_stops :
          stops_walk w (addr + 4 * i) insn (max furthest (leads w addr i)) ≡ true
          → walk_from (suc fuel) w (addr + 4 * i) furthest end labels
            ≡ (u32 (addr + 4 * i + 4), after)
      unfolding walk_from after
      turn_stops h = grind (arith, leads_here i insn e)

      turn_goes_on :
          stops_walk w (addr + 4 * i) insn (max furthest (leads w addr i)) ≡ false
          → walk_from (suc fuel) w (addr + 4 * i) furthest end labels
            ≡ walk_from fuel w
                (u32 (addr + 4 * i + 4))
                (max furthest (leads w addr i))
                (u32 (addr + 4 * i + 4))
                after
      unfolding walk_from after
      turn_goes_on h = grind (arith, leads_here i insn e)

  no_turns : (a furthest : ℕ) (labels : List ℕ) → walk_from 0 w a furthest a labels ≡ (a, labels)
  unfolding walk_from
  no_turns a furthest labels = refl

  -- The loop from the `i`-th turn on.
  walk_from-IsWalk :
      (fuel i furthest : ℕ) (labels : List ℕ)
      → addr + 4 * (i + fuel) < 2 ^ 32
      → Before w addr i furthest labels
      → IsWalk w addr (i + fuel) (walk_from fuel w (addr + 4 * i) furthest (addr + 4 * i) labels)
  unfolding after
  walk_from-IsWalk zero i furthest labels small b =
      subst⁻¹ (IsWalk w addr (i + 0)) (no_turns (addr + 4 * i) furthest labels) record {
        count = i;
        end_at = refl;
        bounded = omega arith;
        readable = b.read;
        first = λ j l. b.open_so_far j (omega (arith, l));
        reason = inl (omega arith);
        targets = b.seen;
      }
  walk_from-IsWalk (suc fuel) i furthest labels small b =
      let a : ℕ = addr + 4 * i in
      let next = after fuel i furthest a labels in
      elim (Option-cases (w.word_at a)) [
        | inl e ↦
            subst⁻¹ (IsWalk w addr (i + suc fuel)) (turn_unread fuel i furthest a labels e)
              (unread e)
        | inr (insn, e) ↦ elim (Bool-cases (stops_walk w a insn (max furthest (leads w addr i)))) [
          | inl h ↦
              subst⁻¹ (IsWalk w addr (i + suc fuel)) (turn_stops fuel i furthest a labels insn e h)
                (stopped insn e ((stops_iff w addr i furthest labels insn b (omega arith) e).0 h))
          | inr h ↦
              let not_end : ¬ EndsAt w addr i = λ q.
                let halt = (stops_iff w addr i furthest labels insn b (omega arith) e).1 q in cc in
              let there : u32 (a + 4) ≡ addr + 4 * suc i = omega arith in
              let turns : i + suc fuel ≡ suc i + fuel = omega arith in
              subst⁻¹ (IsWalk w addr (i + suc fuel))
                (turn_goes_on fuel i furthest a labels insn e h)
                (rw (there, turns)
                  (walk_from-IsWalk fuel (suc i) (max furthest (leads w addr i)) next (omega arith)
                    (Before-step w addr i furthest insn labels b e not_end)))
        ]
      ]
    where
      unread : w.word_at (addr + 4 * i) ≡ none → IsWalk w addr (i + suc fuel) (addr + 4 * i, labels)
      unread e = record {
        count = i;
        end_at = refl;
        bounded = omega arith;
        readable = b.read;
        first = λ j l. b.open_so_far j (omega (arith, l));
        reason = inr (inl e);
        targets = b.seen;
      }

      stopped :
          (insn : ℕ)
          → w.word_at (addr + 4 * i) ≡ some insn
          → EndsAt w addr i
          → IsWalk w addr
              (i + suc fuel)
              (u32 (addr + 4 * i + 4), after fuel i furthest (addr + 4 * i) labels)
      stopped insn e ends = record {
        count = suc i;
        end_at = omega arith;
        bounded = omega arith;
        readable = read_step w addr i furthest insn labels b e;
        first = λ j l. b.open_so_far j (omega (arith, l));
        reason = inr (inr (i, refl, ends));
        targets = noted w addr i (leads w addr i) labels (leads w addr i == 0) refl refl b.seen;
      }

  pub walk_from_addr-IsWalk :
      (limit : ℕ)
      → addr + 4 * limit < 2 ^ 32
      → IsWalk w addr limit (walk_from limit w addr addr addr [])
  walk_from_addr-IsWalk limit small =
      let here : addr + 4 * 0 ≡ addr = omega arith in
      let all : 0 + limit ≡ limit = omega arith in
      rw (here, all) at
        (walk_from-IsWalk limit 0 addr [] (omega (arith, small)) (Before-start w addr))
