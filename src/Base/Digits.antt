-- ===== src/Base/Digits.antt =====
-- Go's `strconv`: numbers as text.
use Prim.Native.Char.{Char, code}
use Prim.Native.String.{String, [], ◌∷◌}
use Prim.Native.Nat.{ℕ, zero, suc, ◌+◌, ◌-◌, ◌*◌, ◌/◌, ◌%◌, ◌^◌, ◌<◌}
use mathlib.Core.Path.{◌≡◌, refl, ap, ◌∙◌}
use mathlib.Core.Logic.{inl, inr}
use mathlib.Core.Bool.{◌&&◌}
use mathlib.Core.Option.{Option, none, some}
use native.Mathlib.Omega.{arith}
use native.Mathlib.Nat.{pow-suc}
use kausality.Base.Tests.{if◌then◌else◌, eqb, ltb, leb, lt→ltb, ltb→lt, le→leb, Bool-cases}
use kausality.Base.Int.{ℤ, pos, negsuc}
use kausality.Base.Text.{is_space, IsPlain, AllPlain}

abbrev alphabet : String
alphabet = "0123456789abcdefghijklmnopqrstuvwxyz"

abbrev pub zero_digit : Char
zero_digit = "0"

unfoldable pub nth : String → ℕ → Char
nth [] i = zero_digit
nth (c ∷ s) zero = c
nth (c ∷ s) (suc i) = nth s i

unfoldable pub digit : ℕ → Char
unfolding nth
digit d = nth alphabet d

-- `strconv.FormatUint(n, base)`: the digits are put in front of those that are there.
unfoldable pub format_from : ℕ → ℕ → ℕ → String → String
unfolding digit
format_from base zero n s = s
format_from base (suc fuel) n s =
    let s' = digit (n % base) ∷ s in
    let rest = format_from base fuel (n / base) s' in if ltb n base then s' else rest

-- Twenty digits are enough for every 64-bit number.
unfoldable pub format_uint : ℕ → String
unfolding format_from
format_uint n = format_from 10 20 n ""

-- `strconv.FormatInt(n, 10)`
unfoldable pub format_int : ℤ → String
unfolding format_uint
format_int (pos n) = format_uint n
format_int (negsuc n) = "-" ∷ format_uint (suc n)

-- The digits of `strconv.ParseUint`, read after those that make `acc`.
unfoldable pub parse_from : ℕ → String → Option ℕ
parse_from acc [] = some acc
parse_from acc (c ∷ s) =
    let rest = parse_from (acc * 10 + (code c - b'0')) s in
    if leb b'0' (code c) && leb (code c) b'9' then rest else none

unfoldable pub parse_uint : String → Option ℕ
unfolding parse_from
parse_uint [] = none
parse_uint (c ∷ s) = parse_from 0 (c ∷ s)

abbrev below_or_none : ℕ → (ℕ → ℤ) → Option ℕ → Option ℤ
below_or_none limit sign none = none
below_or_none limit sign (some n) = if ltb n limit then some (sign n) else none

abbrev minus : ℕ → ℤ
minus zero = pos zero
minus (suc n) = negsuc n

-- `strconv.ParseInt(s, 10, 64)`; `none` is an error.
unfoldable pub parse_int : String → Option ℤ
unfolding parse_uint
parse_int [] = none
parse_int (c ∷ s) =
    if eqb (code c) b'-'
    then below_or_none (2 ^ 63 + 1) minus (parse_uint s)
    else if eqb (code c) b'+'
    then below_or_none (2 ^ 63) pos (parse_uint s)
    else below_or_none (2 ^ 63) pos (parse_uint (c ∷ s))

IsPlain-digit : (s : String) (i : ℕ) → AllPlain s → IsPlain (nth s i)
unfolding nth is_space
IsPlain-digit [] i h = (refl, refl)
IsPlain-digit (c ∷ s) zero h = h.0
IsPlain-digit (c ∷ s) (suc i) h = IsPlain-digit s i h.1

AllPlain-alphabet : AllPlain alphabet
unfolding is_space
AllPlain-alphabet = ground arith

digit-IsPlain : (d : ℕ) → IsPlain (digit d)
unfolding digit
digit-IsPlain d = IsPlain-digit alphabet d AllPlain-alphabet

pub format_from-AllPlain :
    (base fuel n : ℕ) (s : String) → AllPlain s → AllPlain (format_from base fuel n s)
unfolding format_from
format_from-AllPlain base zero n s h = h
format_from-AllPlain base (suc fuel) n s h =
    let front : AllPlain (digit (n % base) ∷ s) = (digit-IsPlain (n % base), h) in
    ground (arith, format_from-AllPlain base fuel (n / base) (digit (n % base) ∷ s) front, front)

digit_value : (d : ℕ) → d < 10 → (code (digit d) ≡ b'0' + d)
unfolding digit nth
digit_value zero h = refl
digit_value (suc zero) h = refl
digit_value (suc (suc zero)) h = refl
digit_value (suc (suc (suc zero))) h = refl
digit_value (suc (suc (suc (suc zero)))) h = refl
digit_value (suc (suc (suc (suc (suc zero))))) h = refl
digit_value (suc (suc (suc (suc (suc (suc zero)))))) h = refl
digit_value (suc (suc (suc (suc (suc (suc (suc zero))))))) h = refl
digit_value (suc (suc (suc (suc (suc (suc (suc (suc zero)))))))) h = refl
digit_value (suc (suc (suc (suc (suc (suc (suc (suc (suc zero))))))))) h = refl
digit_value (suc (suc (suc (suc (suc (suc (suc (suc (suc (suc n)))))))))) h = absurd (omega arith)

parse_digit :
    (acc d : ℕ) (s : String) → d < 10 → parse_from acc (digit d ∷ s) ≡ parse_from (acc * 10 + d) s
unfolding parse_from
parse_digit acc d s h =
    let e : b'0' + d - b'0' ≡ d = omega arith in
    rw (digit_value d h, e) (ground (arith, le→leb b'0' (b'0' + d), le→leb (b'0' + d) b'9'))

-- Reading the digits of a number gives the number, if there was fuel for all of them.
parse-format_from :
    (fuel n : ℕ) (s : String)
    → n < 10 ^ suc fuel
    → parse_from 0 (format_from 10 (suc fuel) n s) ≡ parse_from n s
unfolding format_from
parse-format_from zero n s h =
    rw (lt→ltb n 10 h)
      (parse_digit 0 (n % 10) s (omega arith) ∙ ap (λ x. parse_from x s) (omega arith))
parse-format_from (suc fuel) n s h = elim (Bool-cases (ltb n 10)) [
  | inl e ↦ rw e (
      parse_digit 0 (n % 10) s (omega arith)
      ∙ ap (λ x. parse_from x s) (omega (arith, ltb→lt n 10)))
  | inr e ↦ rw e (
      parse-format_from fuel (n / 10) (digit (n % 10) ∷ s) (omega (arith, pow-suc 10 (suc fuel)))
      ∙ parse_digit (n / 10) (n % 10) s (omega arith)
      ∙ ap (λ x. parse_from x s) (omega arith))
]

-- A number is written with a digit in front.
format_from-digit :
    (fuel n : ℕ) (s : String)
    → (d : ℕ) × (t : String) × (format_from 10 (suc fuel) n s ≡ digit d ∷ t) × (d < 10)
unfolding format_from
format_from-digit zero n s = (n % 10, s, ground arith, omega arith)
format_from-digit (suc fuel) n s = elim (Bool-cases (ltb n 10)) [
  | inl e ↦ (n % 10, s, rw e, omega arith)
  | inr e ↦
      let (d, t, same, small) = format_from-digit fuel (n / 10) (digit (n % 10) ∷ s) in
      (d, t, rw e same, small)
]

parse-format_uint : (n : ℕ) → n < 10 ^ 20 → parse_uint (format_uint n) ≡ some n
unfolding parse_uint format_uint
parse-format_uint n h =
    let (d, t, same, small) = format_from-digit 19 n "" in
    let read : parse_from 0 (digit d ∷ t) ≡ some n = rw same at (parse-format_from 19 n "" h) in
    rw same read

-- An int64 that was written in decimal is read back.
pub parse-format_pos : (n : ℕ) → n < 2 ^ 63 → parse_int (format_int (pos n)) ≡ some (pos n)
unfolding parse_int format_int
parse-format_pos n h =
    let (d, t, same, small) = format_from-digit 19 n "" in
    let read : parse_uint (digit d ∷ t) ≡ some n = rw same at (parse-format_uint n (omega arith)) in
    rw same (ground (arith, digit_value d small, read))

pub parse-format_negsuc : (n : ℕ) → n < 2 ^ 63 → parse_int (format_int (negsuc n)) ≡ some (negsuc n)
unfolding parse_int format_int
parse-format_negsuc n h = rw (parse-format_uint (suc n) (omega arith)) (ground arith)
