-- ===== src/Format.antt =====
-- printf-style formatting for guest calls, WoSRecomp/kernel/format.cpp. A format is the list of its
-- bytes before the terminator, past which the code never reads. The host's `snprintf` is a
-- parameter: what it prints of one argument by a host format, before it is cut to its buffer.
pub mod Verbatim
pub mod Limits
pub mod Calls
use wosrecomp.Base.{
  ℕ, zero, suc, ◌+◌, ◌-◌, ◌*◌, ◌%◌, ◌^◌, Bool, true, false, ◌||◌, ◌&&◌, not, if◌then◌else◌, ltb,
  leb, ◌==◌, Option, none, some, List, [], ◌∷◌, ◌++◌, length, take, get_elem?, u32,
}
use wosrecomp.Guest.{Mem, load_u64}

-- `GuestVaListArgs` and `RegisterArgs`.
pub data Args : Type 0 where
  va_list : ℕ → Args
  register_args : List ℕ → ℕ → Args

-- `ArgSource::next`.
unfoldable pub next : Mem → Args → Option (ℕ × Args)
next m (va_list cursor) =
    if cursor == 0 then none else some (load_u64 m cursor, va_list (u32 (cursor + 8)))
next m (register_args values index) = elim (get_elem? values index) [
  | none ↦ none
  | some slot ↦ some (slot, register_args values (index + 1))
]

-- What the host's `snprintf` is handed, by the C type of the argument.
pub data Argument : Type 0 where
  int : ℕ → Argument
  long_long : ℕ → Argument
  unsigned : ℕ → Argument
  unsigned_long_long : ℕ → Argument
  text : List ℕ → Argument
  double : ℕ → Argument

abbrev pub Print : Type 0
Print = List ℕ → Argument → List ℕ

abbrev pub percent : ℕ
percent = 37

abbrev pub star : ℕ
star = 42

abbrev pub dot : ℕ
dot = 46

abbrev pub spec_size : ℕ
spec_size = 64

abbrev pub rendered_size : ℕ
rendered_size = 1024

abbrev pub max_format : ℕ
max_format = 4096

-- `Spec::push`: a full buffer drops the byte.
unfoldable pub push : List ℕ → ℕ → List ℕ
push spec c = if ltb (length spec + 1) spec_size then spec ++ c ∷ [] else spec

unfoldable pub push_all : List ℕ → List ℕ → List ℕ
push_all spec [] = spec
push_all spec (c ∷ cs) = push_all (push spec c) cs

-- '-', '+', ' ', '#' and '0'.
unfoldable pub is_flag : ℕ → Bool
is_flag c = c == 45 || c == 43 || c == 32 || c == 35 || c == 48

unfoldable pub is_digit : ℕ → Bool
is_digit c = leb 48 c && leb c 57

-- `IsLengthModifier`: "hlLwIjzt3264".
unfoldable pub is_length_modifier : ℕ → Bool
is_length_modifier c =
    c == 104
    || c == 108
    || c == 76
    || c == 119
    || c == 73
    || c == 106
    || c == 122
    || c == 116
    || c == 51
    || c == 50
    || c == 54
    || c == 52

-- A loop that pushes the bytes of a kind: the spec, and the rest of the format.
unfoldable pub push_while : (ℕ → Bool) → List ℕ → List ℕ → List ℕ × List ℕ
push_while kind spec [] = (spec, [])
push_while kind spec (c ∷ rest) =
    let r = push_while kind (push spec c) rest in if kind c then r else (spec, c ∷ rest)

-- `snprintf` into a buffer, and the C string that it leaves there.
unfoldable pub until_nul : List ℕ → List ℕ
until_nul [] = []
until_nul (c ∷ cs) = let rest = until_nul cs in if c == 0 then [] else c ∷ rest

unfoldable pub snprintf : Print → ℕ → List ℕ → Argument → List ℕ
snprintf print size spec arg = until_nul (take (size - 1) (print spec arg))

-- `starArgument`.
unfoldable pub star_argument : Print → Mem → List ℕ → Args → Option (List ℕ × Args)
star_argument print m spec args = elim (next m args) [
  | none ↦ none
  | some (slot, args') ↦
      some (push_all spec (snprintf print 16 (37 ∷ 100 ∷ []) (int (u32 slot))), args')
]

-- A width or a precision: digits, or a '*'. None when the arguments have run out.
unfoldable pub number : Print → Mem → List ℕ → List ℕ → Args → Option (List ℕ × List ℕ × Args)
number print m spec [] args = some (spec, [], args)
number print m spec (c ∷ rest) args =
    let (spec', rest') = push_while is_digit spec (c ∷ rest) in
    if c == star
    then elim (star_argument print m spec args) [
      | none ↦ none
      | some (spec'', args') ↦ some (spec'', rest, args')
    ]
    else some (spec', rest', args)

unfoldable pub precision : Print → Mem → List ℕ → List ℕ → Args → Option (List ℕ × List ℕ × Args)
precision print m spec [] args = some (spec, [], args)
precision print m spec (c ∷ rest) args =
    if c == dot then number print m (push spec dot) rest args else some (spec, c ∷ rest, args)

unfoldable pub starts : List ℕ → List ℕ → Bool
starts [] cs = true
starts (p ∷ ps) [] = false
starts (p ∷ ps) (c ∷ cs) = p == c && starts ps cs

-- The length modifiers: whether one was "ll" or "I64", and the rest.
unfoldable pub length_modifiers : Bool → List ℕ → Bool × List ℕ
length_modifiers is_long_long [] = (is_long_long, [])
length_modifiers is_long_long (c ∷ rest) =
    let here = starts (108 ∷ 108 ∷ []) (c ∷ rest) || starts (73 ∷ 54 ∷ 52 ∷ []) (c ∷ rest) in
    let r = length_modifiers (is_long_long || here) rest in
    if is_length_modifier c then r else (is_long_long, c ∷ rest)

-- At most `n` bytes of the string at a guest address.
unfoldable pub bounded : Mem → ℕ → ℕ → List ℕ
bounded m addr zero = []
bounded m addr (suc n) =
    let rest = bounded m (addr + 1) n in if m addr == 0 then [] else m addr ∷ rest

unfoldable pub one_of : ℕ → List ℕ → Bool
one_of c [] = false
one_of c (x ∷ xs) = c == x || one_of c xs

-- The `switch` on the conversion: what `rendered` holds.
unfoldable pub render : Print → Mem → List ℕ → Bool → ℕ → ℕ → List ℕ
render print m spec is_long_long conv slot =
    let out = snprintf print rendered_size in
    let wide = push (push spec 108) 108 in
    -- "di"
    if one_of conv (100 ∷ 105 ∷ [])
    then (if is_long_long
        then out (push wide 100) (long_long slot)
        else out (push spec 100) (int (u32 slot)))
    -- "uoxX"
    else if one_of conv (117 ∷ 111 ∷ 120 ∷ 88 ∷ [])
    then (if is_long_long
        then out (push wide conv) (unsigned_long_long slot)
        else out (push spec conv) (unsigned (u32 slot)))
    -- 'c'
    else if conv == 99
    then out (push spec 99) (int (u32 slot % 256))
    -- 'p', as "0x%08X"
    else if conv == 112
    then out (48 ∷ 120 ∷ 37 ∷ 48 ∷ 56 ∷ 88 ∷ []) (unsigned (u32 slot))
    -- 's', with "(null)" for a null pointer
    else if conv == 115
    then (if u32 slot == 0
        then out (push spec 115) (text (40 ∷ 110 ∷ 117 ∷ 108 ∷ 108 ∷ 41 ∷ []))
        else out (push spec 115) (text (bounded m (u32 slot) 511)))
    -- "fFeEgG"
    else if one_of conv (102 ∷ 70 ∷ 101 ∷ 69 ∷ 103 ∷ 71 ∷ [])
    then out (push spec conv) (double slot)
    -- "<%%%c?>"
    else out (60 ∷ 37 ∷ 37 ∷ 37 ∷ 99 ∷ 63 ∷ 62 ∷ []) (int conv)

-- How one directive ends: the loop is left, or goes on behind it.
pub data Outcome : Type 0 where
  stops : List ℕ → Outcome
  continues : List ℕ → List ℕ → Args → Outcome

-- "<no more args>", "<truncated format>", "<%" and " unavailable>".
abbrev pub no_more_args : List ℕ
no_more_args = 60 ∷ 110 ∷ 111 ∷ 32 ∷ 109 ∷ 111 ∷ 114 ∷ 101 ∷ 32 ∷ 97 ∷ 114 ∷ 103 ∷ 115 ∷ 62 ∷ []

abbrev pub truncated_format : List ℕ
truncated_format =
    60 ∷ 116 ∷ 114 ∷ 117 ∷ 110 ∷ 99 ∷ 97 ∷ 116 ∷ 101 ∷ 100 ∷ 32 ∷ 102 ∷ 111 ∷ 114 ∷ 109 ∷ 97 ∷ 116
    ∷ 62 ∷ []

abbrev pub unavailable : ℕ → List ℕ
unavailable conv =
    60 ∷ 37 ∷ conv ∷ 32 ∷ 117 ∷ 110 ∷ 97 ∷ 118 ∷ 97 ∷ 105 ∷ 108 ∷ 97 ∷ 98 ∷ 108 ∷ 101 ∷ 62 ∷ []

-- The conversion itself, behind the length modifiers, with its argument or without.
unfoldable pub converted :
    Print → Mem → List ℕ → Bool → ℕ → List ℕ → Args → Option (ℕ × Args) → Outcome
converted print m spec is_long_long conv rest args none = continues (unavailable conv) rest args
converted print m spec is_long_long conv rest args (some (slot, args')) =
    continues (render print m spec is_long_long conv slot) rest args'

unfoldable pub conversion : Print → Mem → List ℕ → Bool → List ℕ → Args → Outcome
conversion print m spec is_long_long [] args = stops truncated_format
conversion print m spec is_long_long (conv ∷ rest) args =
    converted print m spec is_long_long conv rest args (next m args)

unfoldable pub behind_precision : Print → Mem → Option (List ℕ × List ℕ × Args) → Outcome
behind_precision print m none = stops no_more_args
behind_precision print m (some (spec, rest, args)) =
    let (is_long_long, rest') = length_modifiers false rest in
    conversion print m spec is_long_long rest' args

unfoldable pub behind_width : Print → Mem → Option (List ℕ × List ℕ × Args) → Outcome
behind_width print m none = stops no_more_args
behind_width print m (some (spec, rest, args)) =
    behind_precision print m (precision print m spec rest args)

-- A directive, with the format behind its '%'.
unfoldable pub directive : Print → Mem → List ℕ → Args → Outcome
directive print m rest args =
    let (spec, rest') = push_while is_flag (percent ∷ []) rest in
    behind_width print m (number print m spec rest' args)

-- A turn of the loop, on the rest of the format from its next byte on.
unfoldable pub turn : Print → Mem → ℕ → List ℕ → Args → Outcome
turn print m c [] args =
    if c == percent then directive print m [] args else continues (c ∷ []) [] args
turn print m c (d ∷ rest) args =
    let literal = continues (c ∷ []) (d ∷ rest) args in
    if not (c == percent)
    then literal
    else if d == percent
    then continues (percent ∷ []) rest args
    else directive print m (d ∷ rest) args

-- What follows a turn: the end, or the rest of the loop.
unfoldable pub put_out :
    List ℕ → Outcome → (List ℕ → Args → List ℕ → Option (List ℕ)) → Option (List ℕ)
put_out out (stops more) loop = some (out ++ more)
put_out out (continues more rest args) loop = loop rest args (out ++ more)

-- The loop, from the index `size - length rest` on, with what has been put out so far; none when
-- the fuel runs out.
unfoldable pub format_loop : ℕ → Print → Mem → ℕ → List ℕ → Args → List ℕ → Option (List ℕ)
format_loop fuel print m size [] args out = some out
format_loop zero print m size (c ∷ rest) args out = none
format_loop (suc fuel) print m size (c ∷ rest) args out =
    let more = put_out out (turn print m c rest args) (format_loop fuel print m size) in
    if ltb (size - length (c ∷ rest)) max_format then more else some out

-- `FormatGuest` on a format at an address other than 0.
unfoldable pub format_guest : Print → Mem → List ℕ → Args → Option (List ℕ)
format_guest print m fmt args = format_loop (length fmt) print m (length fmt) fmt args []
