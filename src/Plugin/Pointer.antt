-- ===== src/Plugin/Pointer.antt =====
-- cmd/example-generic-control-plane/pkg/admission/kausality.go: the path of a JSON patch. The loops
-- run over the bytes of a text and add `string(b)` for a byte b, which is the character with that
-- number: a character outside ASCII is widened to one character for each of its bytes.
use Prim.Native.Nat.{ℕ, ◌+◌, ◌/◌, ◌%◌, Ordering, compare}
use Prim.Native.Char.{Char, char, code, nul}
use Prim.Native.String.{String, [], ◌∷◌, ◌++◌}
use mathlib.Core.Path.{◌≡◌, refl}
use kausality.Base.{
  Bool, true, false, ◌==◌, if◌then◌else◌, eqb, ltb, List, [], ◌∷◌, Option, none, some,
}

abbrev char_by : (n : ℕ) (o : Ordering) → compare n 55296 ≡ o → Char
char_by n Ordering.lt h = char n (rw h tt)
char_by n Ordering.eq h = nul
char_by n Ordering.gt h = nul

-- Go's `string(n)` for a byte.
abbrev pub char_of : ℕ → Char
char_of n = char_by n (compare n 55296) refl

-- The bytes of the character's UTF-8, each as a character.
unfoldable pub widen : Char → String
widen c =
    let n = code c in
    let low = char_of (128 + n % 64) in
    let middle = char_of (128 + n / 64 % 64) in
    let high = char_of (128 + n / 4096 % 64) in
    if ltb n 128
    then c ∷ []
    else if ltb n 0x800
    then char_of (192 + n / 64) ∷ low ∷ []
    else if ltb n 0x10000
    then char_of (224 + n / 4096) ∷ middle ∷ low ∷ []
    else char_of (240 + n / 262144) ∷ high ∷ middle ∷ low ∷ []

abbrev pub is_slash : Char → Bool
is_slash c = eqb (code c) b'/'

abbrev pub is_tilde : Char → Bool
is_tilde c = eqb (code c) b'~'

-- What the two characters stand for, if they are an escape.
unfoldable pub escaped : Char → Char → Option Char
escaped c d =
    if is_tilde c
    then (if eqb (code d) b'1' then some "/" else if eqb (code d) b'0' then some "~" else none)
    else none

unfoldable pub unescape_path_segment : String → String
unfolding escaped widen
unescape_path_segment [] = []
unescape_path_segment (c ∷ []) = widen c
unescape_path_segment (c ∷ d ∷ s) = elim (escaped c d) [
  | some t ↦ t ∷ unescape_path_segment s
  | none ↦ widen c ++ unescape_path_segment (d ∷ s)
]

-- The loop of `parsePath`, with the segment read so far.
unfoldable pub split_path : String → String → List String
unfolding widen unescape_path_segment
split_path current [] = if current == [] then [] else unescape_path_segment current ∷ []
split_path current (c ∷ s) = elim (is_slash c) [
  | true ↦ unescape_path_segment current ∷ split_path [] s
  | false ↦ split_path (current ++ widen c) s
]

unfoldable pub parse_path : String → List String
unfolding split_path
parse_path [] = []
parse_path (c ∷ s) = if (c ∷ s) == "/" then [] else split_path [] (if is_slash c then s else c ∷ s)
