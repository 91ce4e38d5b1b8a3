-- ===== src/Format/Calls.antt =====
-- The guest's calls of the formatter, WoSRecomp/kernel/debug.cpp: sprintf and _vsnprintf. The
-- format is given with its address, as the bytes before its terminator. The text is what
-- FormatGuest returns; where it would not return, so would the call.
use wosrecomp.Base.{
  ℕ, ◌+◌, ◌-◌, ◌^◌, ◌≤◌, ◌<◌, ◌≡◌, ◌≢◌, ◌⊎◌, ◌||◌, if◌then◌else◌, ltb, ◌==◌, Option, none, some,
  List, [], ◌∷◌, ◌++◌, length, length-take, take, arith, u32,
}
use wosrecomp.Guest.{Mem, store_byte}
use wosrecomp.Guest.Laws.{SameOutside}
use wosrecomp.Files.{write_bytes}
use wosrecomp.Files.Reads.{write_bytes-SameOutside}
use wosrecomp.Format.{Print, va_list, register_args, format_guest}
use wosrecomp.Format.Limits.{format_guest-ends}

abbrev pub minus_one : ℕ
minus_one = 0xFFFF_FFFF

-- The end of _vsnprintf: at most `count - 1` bytes of the text, and a terminator.
unfoldable pub store_bounded : Mem → ℕ → ℕ → List ℕ → ℕ × Mem
store_bounded m buffer count formatted =
    let n = if ltb (length formatted) (count - 1) then length formatted else count - 1 in
    (
      if ltb (length formatted) count then u32 n else minus_one,
      store_byte (write_bytes m buffer (take n formatted)) (buffer + n) 0,
    )

-- _vsnprintf(r3 = buffer, r4 = count, r5 = format, r6 = va_list).
unfoldable pub vsnprintf : Print → Mem → ℕ → ℕ → ℕ → List ℕ → ℕ → Option (ℕ × Mem)
vsnprintf print m buffer count format fmt args =
    if buffer == 0 || count == 0 || format == 0
    then some (minus_one, m)
    else elim (format_guest print m fmt (va_list args)) [
      | none ↦ none
      | some formatted ↦ some (store_bounded m buffer count formatted)
    ]

-- sprintf(r3 = buffer, r4 = format, r5 to r10 = the values).
unfoldable pub sprintf : Print → Mem → ℕ → ℕ → List ℕ → List ℕ → Option (ℕ × Mem)
sprintf print m buffer format fmt values =
    if buffer == 0 || format == 0
    then some (minus_one, m)
    else elim (format_guest print m fmt (register_args (take 6 values) 0)) [
      | none ↦ none
      | some formatted ↦ some (u32 (length formatted), write_bytes m buffer (formatted ++ 0 ∷ []))
    ]

terminated-inside :
    (m : Mem) (buffer count n : ℕ) (formatted : List ℕ)
    → n < count
    → SameOutside buffer count m
        (store_byte (write_bytes m buffer (take n formatted)) (buffer + n) 0)
unfolding store_byte
terminated-inside m buffer count n formatted room x out =
    let within : length (take n formatted) ≤ n = omega (arith, length-take n formatted) in
    let same : write_bytes m buffer (take n formatted) x ≡ m x =
      write_bytes-SameOutside m buffer (take n formatted) x (grind (arith, out, within)) in
    ground (arith, same, out)

store_bounded-inside :
    (m : Mem) (buffer count : ℕ) (formatted : List ℕ)
    → 0 < count
    → SameOutside buffer count m (store_bounded m buffer count formatted).1
unfolding store_bounded
store_bounded-inside m buffer count formatted some_room =
    terminated-inside m buffer count
      (if ltb (length formatted) (count - 1) then length formatted else count - 1) formatted
      (ground arith)

store_bounded-status :
    (m : Mem) (buffer count : ℕ) (formatted : List ℕ)
    → 0 < count
    → count < 2 ^ 32
    → let status = (store_bounded m buffer count formatted).0 in
      ((count ≤ length formatted) × (status ≡ minus_one))
      ⊎ ((length formatted < count) × (status ≡ length formatted))
unfolding store_bounded
store_bounded-status m buffer count formatted some_room small = grind arith

-- _vsnprintf with a buffer, a count and a format that are not 0 returns, changes only the `count`
-- bytes of the buffer, and returns -1 exactly when the text does not fit with its terminator;
-- otherwise it returns the text's length, below the count.
pub vsnprintf-inside :
    (print : Print) (m : Mem) (buffer count format : ℕ) (fmt : List ℕ) (args : ℕ)
    → buffer ≢ 0
    → count ≢ 0
    → format ≢ 0
    → count < 2 ^ 32
    → (formatted : List ℕ) × (m' : Mem) × (status : ℕ) × (format_guest print m fmt (va_list args)
        ≡ some formatted)
      × (vsnprintf print m buffer count format fmt args ≡ some (status, m'))
      × SameOutside buffer count m m'
      × (((count ≤ length formatted) × (status ≡ minus_one))
          ⊎ ((length formatted < count) × (status ≡ length formatted)))
unfolding vsnprintf
vsnprintf-inside print m buffer count format fmt args b c f small =
    let (formatted, e, _, _) = format_guest-ends print m fmt (va_list args) in
    let r = store_bounded m buffer count formatted in
    (
      formatted,
      r.1,
      r.0,
      e,
      ground (arith, e),
      store_bounded-inside m buffer count formatted (omega (arith, c)),
      store_bounded-status m buffer count formatted (omega (arith, c)) small,
    )
