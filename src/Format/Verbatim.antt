-- ===== src/Format/Verbatim.antt =====
-- Text without directives goes through the formatter unchanged.
use wosrecomp.Base.{
  ℕ, zero, suc, ◌-◌, ◌≤◌, ◌<◌, ◌≡◌, refl, ap, sym, ◌∙◌, false, Bool-cases, some, inl, inr, List, [],
  ◌∷◌, ◌++◌, length, lt→ltb, ◌==◌, arith, if◌then◌else◌,
}
use mathlib.Core.List.{append-nil, append_assoc}
use wosrecomp.Guest.{Mem}
use wosrecomp.Format.{
  Args, Print, percent, continues, turn, max_format, put_out, format_loop, format_guest,
}

-- A text as a format: each '%' doubled.
abbrev pub escape : List ℕ → List ℕ
escape [] = []
escape (c ∷ text) = if c == percent then percent ∷ percent ∷ escape text else c ∷ escape text

module _ (print : Print) (m : Mem) (args : Args) where
  turn-plain :
      (c : ℕ) (rest : List ℕ)
      → (c == percent) ≡ false
      → turn print m c rest args ≡ continues (c ∷ []) rest args
  unfolding turn
  turn-plain c [] e = rw e refl
  turn-plain c (d ∷ rest) e = rw e refl

  turn-percent :
      (rest : List ℕ)
      → turn print m percent (percent ∷ rest) args ≡ continues (percent ∷ []) rest args
  unfolding turn
  turn-percent rest = refl

  -- One turn of the loop that puts out a byte and goes on.
  format_loop-go :
      (fuel size c d : ℕ) (rest rest' out : List ℕ)
      → size - suc (length rest) < max_format
      → turn print m c rest args ≡ continues (d ∷ []) rest' args
      → format_loop (suc fuel) print m size (c ∷ rest) args out
        ≡ format_loop fuel print m size rest' args (out ++ d ∷ [])
  unfolding format_loop put_out
  format_loop-go fuel size c d rest rest' out low e =
      rw (lt→ltb (size - suc (length rest)) max_format low, e) refl

  format_loop-escape :
      (fuel size : ℕ) (t out : List ℕ)
      → length (escape t) ≤ fuel
      → size ≤ max_format
      → length (escape t) ≤ size
      → format_loop fuel print m size (escape t) args out ≡ some (out ++ t)
  unfolding format_loop
  format_loop-escape fuel size [] out enough low fits = ap some (sym (append-nil out))
  format_loop-escape zero size (c ∷ t) out enough low fits = absurd (ground (arith, enough))
  format_loop-escape (suc fuel) size (c ∷ t) out enough low fits =
      elim (Bool-cases (c == percent)) [
        | inl e ↦
            let same : c ≡ percent = ground (arith, e) in
            rw e (
              format_loop-go fuel size percent percent (percent ∷ escape t) (escape t) out
                (ground (arith, fits, e)) (turn-percent (escape t))
              ∙ format_loop-escape fuel size t (out ++ percent ∷ []) (ground (arith, enough, e)) low
                  (ground (arith, fits, e))
              ∙ ap some (append_assoc out (percent ∷ []) t ∙ ap (λ x. out ++ x ∷ t) (sym same)))
        | inr e ↦ rw e (
            format_loop-go fuel size c c (escape t) (escape t) out (ground (arith, fits, e))
              (turn-plain c (escape t) e)
            ∙ format_loop-escape fuel size t (out ++ c ∷ []) (ground (arith, enough, e)) low
                (ground (arith, fits, e))
            ∙ ap some (append_assoc out (c ∷ []) t))
      ]

  -- A text whose '%' are doubled, where that makes at most 4096 bytes, is formatted to the text
  -- itself, whatever the arguments.
  pub format_guest-escape :
      (t : List ℕ) → length (escape t) ≤ max_format → format_guest print m (escape t) args ≡ some t
  unfolding format_guest
  format_guest-escape t short =
      format_loop-escape (length (escape t)) (length (escape t)) t [] (omega arith) short
        (omega arith)
