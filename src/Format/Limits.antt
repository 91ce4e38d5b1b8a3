-- ===== src/Format/Limits.antt =====
-- The formatter ends, and what it prints is bounded.
use wosrecomp.Base.{
  ℕ, zero, suc, ◌+◌, ◌-◌, ◌*◌, ◌≤◌, ◌<◌, ◌≡◌, refl, Bool, false, Bool-cases, Option, Option-cases,
  none, some, inl, inr, List, [], ◌∷◌, ◌++◌, length, length-append, take, length-take, ltb, ◌==◌,
  arith, not, if◌then◌else◌, if-both, OnSome, ◌||◌, u32,
}
use wosrecomp.Guest.{Mem}
use wosrecomp.Format.{
  Args, next, Argument, Print, percent, star, dot, push, is_flag, is_digit, is_length_modifier,
  push_while, until_nul, snprintf, star_argument, number, precision, starts, one_of,
  length_modifiers, rendered_size, render, Outcome, stops, continues, converted, conversion,
  behind_precision, behind_width, directive, turn, max_format, format_loop, put_out, format_guest,
}

push_while-shorter :
    (kind : ℕ → Bool) (spec rest : List ℕ) → length (push_while kind spec rest).1 ≤ length rest
unfolding push_while
push_while-shorter kind spec [] = omega arith
push_while-shorter kind spec (c ∷ rest) = ground (arith, push_while-shorter kind (push spec c) rest)

length_modifiers-shorter :
    (b : Bool) (rest : List ℕ) → length (length_modifiers b rest).1 ≤ length rest
unfolding length_modifiers
length_modifiers-shorter b [] = omega arith
length_modifiers-shorter b (c ∷ rest) =
    let here = starts (108 ∷ 108 ∷ []) (c ∷ rest) || starts (73 ∷ 54 ∷ 52 ∷ []) (c ∷ rest) in
    let shorter = length_modifiers-shorter (b || here) rest in
    if-both (λ (r : Bool × List ℕ). length r.1 ≤ suc (length rest)) (is_length_modifier c)
      (length_modifiers (b || here) rest) (b, c ∷ rest) (omega (arith, shorter)) (omega arith)

until_nul-shorter : (cs : List ℕ) → length (until_nul cs) ≤ length cs
unfolding until_nul
until_nul-shorter [] = omega arith
until_nul-shorter (c ∷ cs) = ground (arith, until_nul-shorter cs)

snprintf-bounded :
    (print : Print) (size : ℕ) (spec : List ℕ) (a : Argument)
    → length (snprintf print size spec a) ≤ size - 1
unfolding snprintf
snprintf-bounded print size spec a = omega (
  arith,
  until_nul-shorter (take (size - 1) (print spec a)),
  length-take (size - 1) (print spec a),
)

abbrev Fits : List ℕ → Type 0
Fits text = length text ≤ 1023

if-Fits : (b : Bool) (x y : List ℕ) → Fits x → Fits y → Fits (if b then x else y)
if-Fits = if-both Fits

-- Every piece that a conversion puts out fits `rendered`.
render-Fits :
    (print : Print) (m : Mem) (spec : List ℕ) (wide : Bool) (conv slot : ℕ)
    → Fits (render print m spec wide conv slot)
unfolding render
render-Fits print m spec wide conv slot =
    let fits : (s : List ℕ) (a : Argument) → Fits (snprintf print rendered_size s a) =
      λ s a. snprintf-bounded print rendered_size s a in
    if-Fits (one_of conv (100 ∷ 105 ∷ [])) _ _ (if-Fits wide _ _ (fits _ _) (fits _ _)) (
      if-Fits (one_of conv (117 ∷ 111 ∷ 120 ∷ 88 ∷ [])) _ _ (if-Fits wide _ _ (fits _ _) (fits _ _))
        (if-Fits (conv == 99) _ _ (fits _ _) (
          if-Fits (conv == 112) _ _ (fits _ _) (
            if-Fits (conv == 115) _ _ (if-Fits (u32 slot == 0) _ _ (fits _ _) (fits _ _)) (
              if-Fits (one_of conv (102 ∷ 70 ∷ 101 ∷ 69 ∷ 103 ∷ 71 ∷ [])) _ _ (fits _ _)
                (fits _ _))))))

-- A directive puts out at most 1023 bytes, and goes on behind what it read.
abbrev pub IsBounded : ℕ → Outcome → Type 0
IsBounded n (stops more) = Fits more
IsBounded n (continues more rest args) = Fits more × (length rest ≤ n)

IsBounded-le : (n n' : ℕ) (x : Outcome) → n ≤ n' → IsBounded n x → IsBounded n' x
IsBounded-le n n' (stops more) le b = b
IsBounded-le n n' (continues more rest args) le b = (b.0, omega (arith, b.1))

-- The rest behind a width or a precision.
abbrev Leaves : ℕ → Option (List ℕ × List ℕ × Args) → Type 0
Leaves n o = OnSome (λ r. length r.1 ≤ n) o

Leaves-le : (n n' : ℕ) (o : Option (List ℕ × List ℕ × Args)) → n ≤ n' → Leaves n o → Leaves n' o
Leaves-le n n' none le l = tt
Leaves-le n n' (some r) le l = omega (arith, le, l)

module _ (print : Print) (m : Mem) where
  converted-IsBounded :
      (spec : List ℕ) (wide : Bool) (conv n : ℕ) (rest : List ℕ) (args : Args)
      (o : Option (ℕ × Args))
      → length rest ≤ n
      → IsBounded n (converted print m spec wide conv rest args o)
  unfolding converted
  converted-IsBounded spec wide conv n rest args none le = (omega arith, le)
  converted-IsBounded spec wide conv n rest args (some (slot, args')) le =
      (render-Fits print m spec wide conv slot, le)

  conversion-IsBounded :
      (spec : List ℕ) (wide : Bool) (rest : List ℕ) (args : Args)
      → IsBounded (length rest) (conversion print m spec wide rest args)
  unfolding conversion
  conversion-IsBounded spec wide [] args = omega arith
  conversion-IsBounded spec wide (conv ∷ rest) args =
      converted-IsBounded spec wide conv (suc (length rest)) rest args (next m args) (omega arith)

  behind_precision-IsBounded :
      (n : ℕ) (o : Option (List ℕ × List ℕ × Args))
      → Leaves n o
      → IsBounded n (behind_precision print m o)
  unfolding behind_precision
  behind_precision-IsBounded n none l = omega arith
  behind_precision-IsBounded n (some (spec, rest, args)) l =
      let r = length_modifiers false rest in
      IsBounded-le (length r.1) n (conversion print m spec r.0 r.1 args)
        (omega (arith, length_modifiers-shorter false rest, l))
        (conversion-IsBounded spec r.0 r.1 args)

  number-Leaves :
      (spec rest : List ℕ) (args : Args) → Leaves (length rest) (number print m spec rest args)
  unfolding number
  number-Leaves spec [] args = omega arith
  number-Leaves spec (c ∷ rest) args = elim (Bool-cases (c == star)) [
    | inl e ↦ elim (Option-cases (star_argument print m spec args)) [
      | inl s ↦ rw (e, s) tt
      | inr ((spec', args'), s) ↦ rw (e, s) (omega arith)
    ]
    | inr e ↦ rw e (push_while-shorter is_digit spec (c ∷ rest))
  ]

  precision-Leaves :
      (spec rest : List ℕ) (args : Args) → Leaves (length rest) (precision print m spec rest args)
  unfolding precision
  precision-Leaves spec [] args = omega arith
  precision-Leaves spec (c ∷ rest) args = elim (Bool-cases (c == dot)) [
    | inl e ↦ rw e (
        Leaves-le (length rest) (suc (length rest)) _ (omega arith)
          (number-Leaves (push spec dot) rest args))
    | inr e ↦ rw e (omega arith)
  ]

  behind_width-IsBounded :
      (n : ℕ) (o : Option (List ℕ × List ℕ × Args))
      → Leaves n o
      → IsBounded n (behind_width print m o)
  unfolding behind_width
  behind_width-IsBounded n none l = omega arith
  behind_width-IsBounded n (some (spec, rest, args)) l =
      behind_precision-IsBounded n (precision print m spec rest args)
        (Leaves-le (length rest) n _ l (precision-Leaves spec rest args))

  directive-IsBounded :
      (rest : List ℕ) (args : Args) → IsBounded (length rest) (directive print m rest args)
  unfolding directive
  directive-IsBounded rest args =
      let r = push_while is_flag (percent ∷ []) rest in
      behind_width-IsBounded (length rest) (number print m r.0 r.1 args) (
        Leaves-le (length r.1) (length rest) _ (push_while-shorter is_flag (percent ∷ []) rest)
          (number-Leaves r.0 r.1 args))

  turn-IsBounded :
      (c : ℕ) (rest : List ℕ) (args : Args) → IsBounded (length rest) (turn print m c rest args)
  unfolding turn
  turn-IsBounded c [] args =
      if-both (IsBounded 0) (c == percent) _ _ (directive-IsBounded [] args)
        (omega arith, omega arith)
  turn-IsBounded c (d ∷ rest) args =
      if-both (IsBounded (suc (length rest))) (not (c == percent)) _ _ (omega arith, omega arith)
        (if-both (IsBounded (suc (length rest))) (d == percent) _ _ (omega arith, omega arith)
          (directive-IsBounded (d ∷ rest) args))

  -- What the loop returns from a point on: an output that is at most 1023 bytes longer for each
  -- byte of the format that is left, and for each index below the limit.
  abbrev Ends : ℕ → List ℕ → List ℕ → Option (List ℕ) → Type 0
  Ends size rest out o =
      (final : List ℕ) × (o ≡ some final)
      × (length final ≤ length out + 1023 * length rest)
      × (length final ≤ length out + 1023 * (max_format - (size - length rest)))

  put_out-Ends :
      (fuel size c : ℕ) (rest out : List ℕ) (x : Outcome)
      → ((rest' : List ℕ) (args : Args) (out : List ℕ)
          → length rest' ≤ length rest
          → Ends size rest' out (format_loop fuel print m size rest' args out))
      → IsBounded (length rest) x
      → suc (length rest) ≤ size
      → size - suc (length rest) < max_format
      → Ends size (c ∷ rest) out (put_out out x (format_loop fuel print m size))
  unfolding put_out
  put_out-Ends fuel size c rest out (stops more) later b fits low = (
    out ++ more,
    refl,
    omega (arith, length-append out more, b),
    omega (arith, length-append out more, b, low),
  )
  put_out-Ends fuel size c rest out (continues more rest' args) later b fits low =
      let (final, e, short, limited) = later rest' args (out ++ more) b.1 in
      (
        final,
        e,
        omega (arith, length-append out more, b, short),
        omega (arith, length-append out more, b, limited, low, fits),
      )

  format_loop-Ends :
      (fuel size : ℕ) (rest : List ℕ) (args : Args) (out : List ℕ)
      → length rest ≤ fuel
      → length rest ≤ size
      → Ends size rest out (format_loop fuel print m size rest args out)
  unfolding format_loop
  format_loop-Ends fuel size [] args out enough fits = (out, refl, omega arith, omega arith)
  format_loop-Ends zero size (c ∷ rest) args out enough fits = absurd (omega (arith, enough))
  format_loop-Ends (suc fuel) size (c ∷ rest) args out enough fits =
      elim (Bool-cases (ltb (size - length (c ∷ rest)) max_format)) [
        | inl e ↦ rw e (
            put_out-Ends fuel size c rest out (turn print m c rest args)
              (λ rest' args out l.
                format_loop-Ends fuel size rest' args out (omega (arith, l, enough))
                  (omega (arith, l, fits)))
              (turn-IsBounded c rest args) fits (ground (arith, e)))
        | inr e ↦ rw e (out, refl, omega arith, omega arith)
      ]

  -- FormatGuest ends on every format and all arguments, and prints at most 1023 bytes for each byte
  -- of the format, and at most 1023 * 4096 bytes, whatever the host's snprintf does.
  pub format_guest-ends :
      (fmt : List ℕ) (args : Args)
      → (final : List ℕ) × (format_guest print m fmt args ≡ some final)
        × (length final ≤ 1023 * length fmt)
        × (length final ≤ 1023 * max_format)
  unfolding format_guest
  format_guest-ends fmt args =
      let (final, e, short, limited) =
        format_loop-Ends (length fmt) (length fmt) fmt args [] (omega arith) (omega arith) in
      (final, e, omega (arith, short), omega (arith, limited))
