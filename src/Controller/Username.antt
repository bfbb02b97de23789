-- ===== src/Controller/Username.antt =====
-- pkg/controller/tracker.go: `HashUsername`. `digest` stands for the first four bytes of the
-- SHA-256 sum of the name, read as a big-endian number.
use Prim.Native.String.{[], ◌∷◌}
use native.Mathlib.Nat.{pow-suc}
use kausality.Base.{
  String, ℕ, zero, suc, ◌+◌, ◌/◌, ◌%◌, ◌^◌, ◌≤◌, ◌<◌, ltb, ◌≡◌, refl, if◌then◌else◌, arith,
  Bool-cases, inl, inr, ap,
}
use kausality.Base.Digits.{digit, zero_digit, format_from, format_from-AllPlain}
use kausality.Base.Text.{IsClean, is_space, AllPlain, plain-IsClean}

-- Thirteen digits are enough for every uint64.
unfoldable pub format_base36 : ℕ → String
unfolding format_from
format_base36 n = format_from 36 13 n ""

abbrev pub length : String → ℕ
length [] = 0
length (c ∷ s) = suc (length s)

abbrev take : ℕ → String → String
take zero s = []
take (suc n) [] = []
take (suc n) (c ∷ s) = c ∷ take n s

-- `for len(s) < 5 { s = "0" + s }`
pad : ℕ → String → String
pad zero s = s
pad (suc fuel) s = let rest = pad fuel (zero_digit ∷ s) in if ltb (length s) 5 then rest else s

unfoldable pub hash_username : (String → ℕ) → String → String
unfolding format_base36 pad
hash_username digest username = take 5 (pad 5 (format_base36 (digest username)))

-- More fuel than the digits of `n` changes nothing.
format_from-fuel :
    (fuel n : ℕ) (s : String)
    → n < 36 ^ suc fuel
    → format_from 36 (suc (suc fuel)) n s ≡ format_from 36 (suc fuel) n s
unfolding format_from
format_from-fuel zero n s h = ground arith
format_from-fuel (suc fuel) n s h = elim (Bool-cases (ltb n 36)) [
  | inl e ↦ rw e
  | inr e ↦
      rw e
        (format_from-fuel fuel (n / 36) (digit (n % 36) ∷ s) (omega (arith, pow-suc 36 (suc fuel))))
]

pad-AllPlain : (fuel : ℕ) (s : String) → AllPlain s → AllPlain (pad fuel s)
unfolding pad is_space
pad-AllPlain zero s h = h
pad-AllPlain (suc fuel) s h = ground (arith, pad-AllPlain fuel (zero_digit ∷ s) ((refl, refl), h))

pad-length : (fuel : ℕ) (s : String) → 5 ≤ length s + fuel → 5 ≤ length (pad fuel s)
unfolding pad
pad-length zero s h = omega arith
pad-length (suc fuel) s h = ground (arith, pad-length fuel (zero_digit ∷ s))

take-AllPlain : (n : ℕ) (s : String) → AllPlain s → AllPlain (take n s)
take-AllPlain zero s h = tt
take-AllPlain (suc n) [] h = tt
take-AllPlain (suc n) (c ∷ s) h = (h.0, take-AllPlain n s h.1)

take-length : (n : ℕ) (s : String) → n ≤ length s → length (take n s) ≡ n
take-length zero s h = refl
take-length (suc n) [] h = elim h [ ]
take-length (suc n) (c ∷ s) h = omega (arith, take-length n s)

-- Whatever the digest, a hash has five characters of the base-36 alphabet, so none is a comma or a
-- space, and a list of hashes is read back as it was written.
pub hash_username-IsClean :
    (digest : String → ℕ) (username : String)
    → (length (hash_username digest username) ≡ 5) × IsClean (hash_username digest username)
unfolding hash_username
hash_username-IsClean digest username =
    let digits = format_base36 (digest username) in
    let plain =
      take-AllPlain 5 (pad 5 digits)
        (pad-AllPlain 5 digits (format_from-AllPlain 36 13 (digest username) "" tt)) in
    let five : length (take 5 (pad 5 digits)) ≡ 5 =
      take-length 5 (pad 5 digits) (pad-length 5 digits (omega arith)) in
    (five, plain-IsClean _ plain (λ e. absurd (omega (arith, five, ap length e))))
