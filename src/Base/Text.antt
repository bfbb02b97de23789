-- ===== src/Base/Text.antt =====
-- The functions of Go's `strings` that the program uses, over texts as sequences of characters.
use Prim.Native.Char.{Char, code}
use Prim.Native.String.{String, [], ◌∷◌, ◌++◌}
use mathlib.Core.Path.{◌≡◌, refl, ap, ◌∙◌}
use mathlib.Core.Logic.{◌≢◌, inl, inr}
use mathlib.Core.Bool.{Bool, false, ◌&&◌, ◌||◌}
use mathlib.Core.List.{List, [], ◌∷◌}
use native.Mathlib.Omega.{arith}
use text.Mathlib.Text.{◌==◌}
use text.Mathlib.TextLemmas.{nil-append, cons-append}
use kausality.Base.Tests.{if◌then◌else◌, eqb, leb, Bool-cases}
use kausality.Base.Lists.{All}

abbrev pub is_comma : Char → Bool
is_comma c = eqb (code c) b','

-- Unicode's White_Space, as `unicode.IsSpace` has it.
unfoldable pub is_space : Char → Bool
is_space c =
    let n = code c in
    (leb 9 n && leb n 13)
    || (eqb n 32
        || (eqb n 0x85
            || (eqb n 0xA0
                || (eqb n 0x1680
                    || ((leb 0x2000 n && leb n 0x200a)
                        || (eqb n 0x2028
                            || (eqb n 0x2029
                                || (eqb n 0x202f || (eqb n 0x205f || eqb n 0x3000)))))))))

cons_first : Char → List String → List String
cons_first c [] = (c ∷ []) ∷ []
cons_first c (p ∷ ps) = (c ∷ p) ∷ ps

-- `strings.Split(s, ",")`
unfoldable pub split_commas : String → List String
unfolding cons_first
split_commas [] = [] ∷ []
split_commas (c ∷ s) =
    let rest = split_commas s in if is_comma c then [] ∷ rest else cons_first c rest

trim_left : String → String
trim_left [] = []
trim_left (c ∷ s) = if is_space c then trim_left s else c ∷ s

trim_right : String → String
trim_right [] = []
trim_right (c ∷ s) = let rest = trim_right s in if is_space c && (rest == []) then [] else c ∷ rest

unfoldable pub trim_space : String → String
unfolding trim_left trim_right is_space
trim_space s = trim_right (trim_left s)

-- `strings.Join(parts, ",")`
unfoldable pub join_commas : List String → String
join_commas [] = []
join_commas (p ∷ []) = p
join_commas (p ∷ q ∷ ps) = p ++ ("," ++ join_commas (q ∷ ps))

abbrev pub NoComma : String → Type 0
NoComma [] = Unit
NoComma (c ∷ s) = (is_comma c ≡ false) × NoComma s

-- An entry that a comma-separated list gives back as it is.
pub record IsClean (s : String) : Type 0 where
  pub no_comma : NoComma s
  pub trimmed : trim_space s ≡ s
  pub not_empty : s ≢ ""

comma-cons : (s : String) → split_commas ("," ++ s) ≡ [] ∷ split_commas s
unfolding split_commas
comma-cons s = rw (cons-append, nil-append)

split_commas-append :
    (p s : String) → NoComma p → split_commas (p ++ ("," ++ s)) ≡ p ∷ split_commas s
unfolding split_commas
split_commas-append [] s h = rw nil-append (comma-cons s)
split_commas-append (c ∷ p) s h =
    rw (cons-append c p ("," ++ s), h.0, split_commas, split_commas-append p s h.1)

split_commas-single : (p : String) → NoComma p → split_commas p ≡ p ∷ []
unfolding split_commas
split_commas-single [] h = refl
split_commas-single (c ∷ p) h = rw (h.0, split_commas, split_commas-single p h.1)

pub split-join :
    (p : String) (ps : List String)
    → All NoComma (p ∷ ps)
    → split_commas (join_commas (p ∷ ps)) ≡ p ∷ ps
unfolding join_commas
split-join p [] h = split_commas-single p h.0
split-join p (q ∷ ps) h =
    split_commas-append p (join_commas (q ∷ ps)) h.0 ∙ ap (◌∷◌ p) (split-join q ps h.1)

cons_first-NoComma :
    (c : Char) (ps : List String)
    → is_comma c ≡ false
    → All NoComma ps
    → All NoComma (cons_first c ps)
unfolding cons_first
cons_first-NoComma c [] e h = ((e, tt), tt)
cons_first-NoComma c (p ∷ ps) e h = ((e, h.0), h.1)

pub split-NoComma : (s : String) → All NoComma (split_commas s)
unfolding split_commas
split-NoComma [] = (tt, tt)
split-NoComma (c ∷ s) = elim (Bool-cases (is_comma c)) [
  | inl e ↦ rw e (tt, split-NoComma s)
  | inr e ↦ rw e (cons_first-NoComma c (split_commas s) e (split-NoComma s))
]

trim_left-NoComma : (s : String) → NoComma s → NoComma (trim_left s)
unfolding trim_left
trim_left-NoComma [] h = tt
trim_left-NoComma (c ∷ s) h = ground (arith, trim_left-NoComma s h.1)

trim_right-NoComma : (s : String) → NoComma s → NoComma (trim_right s)
unfolding trim_right
trim_right-NoComma [] h = tt
trim_right-NoComma (c ∷ s) h = elim (Bool-cases (is_space c && (trim_right s == []))) [
  | inl e ↦ rw e tt
  | inr e ↦ rw e (h.0, trim_right-NoComma s h.1)
]

pub trim-NoComma : (s : String) → NoComma s → NoComma (trim_space s)
unfolding trim_space
trim-NoComma s h = trim_right-NoComma (trim_left s) (trim_left-NoComma s h)

trim_right_idem : (s : String) → trim_right (trim_right s) ≡ trim_right s
unfolding trim_right
trim_right_idem [] = refl
trim_right_idem (c ∷ s) = elim (Bool-cases (is_space c && (trim_right s == []))) [
  | inl e ↦ rw e
  | inr e ↦ rw (e, trim_right, trim_right_idem s, e)
]

-- The first character is no space, if there is one.
abbrev Starts : String → Type 0
Starts [] = Unit
Starts (c ∷ s) = is_space c ≡ false

trim_left-Starts : (s : String) → Starts (trim_left s)
unfolding trim_left
trim_left-Starts [] = tt
trim_left-Starts (c ∷ s) = elim (Bool-cases (is_space c)) [
  | inl e ↦ rw e (trim_left-Starts s)
  | inr e ↦ rw e e
]

trim_left_of_Starts : (s : String) → Starts s → trim_left s ≡ s
unfolding trim_left
trim_left_of_Starts [] h = refl
trim_left_of_Starts (c ∷ s) h = rw h

trim_right-Starts : (s : String) → Starts s → Starts (trim_right s)
unfolding trim_right
trim_right-Starts [] h = tt
trim_right-Starts (c ∷ s) h = rw h h

pub trim_idem : (s : String) → trim_space (trim_space s) ≡ trim_space s
unfolding trim_space
trim_idem s =
    ap trim_right (
      trim_left_of_Starts (trim_right (trim_left s))
        (trim_right-Starts (trim_left s) (trim_left-Starts s)))
    ∙ trim_right_idem (trim_left s)

-- Characters that are neither a comma nor a space.
abbrev pub IsPlain : Char → Type 0
IsPlain c = (is_comma c ≡ false) × (is_space c ≡ false)

abbrev pub AllPlain : String → Type 0
AllPlain [] = Unit
AllPlain (c ∷ s) = IsPlain c × AllPlain s

plain-NoComma : (s : String) → AllPlain s → NoComma s
plain-NoComma [] h = tt
plain-NoComma (c ∷ s) h = (h.0.0, plain-NoComma s h.1)

plain-trim_right : (s : String) → AllPlain s → trim_right s ≡ s
unfolding trim_right
plain-trim_right [] h = refl
plain-trim_right (c ∷ s) h = rw (h.0.1, plain-trim_right s h.1)

plain-Starts : (s : String) → AllPlain s → Starts s
plain-Starts [] h = tt
plain-Starts (c ∷ s) h = h.0.1

pub plain-IsClean : (s : String) → AllPlain s → s ≢ "" → IsClean s
unfolding trim_space
plain-IsClean s h ne = record {
  no_comma = plain-NoComma s h;
  trimmed = ap trim_right (trim_left_of_Starts s (plain-Starts s h)) ∙ plain-trim_right s h;
  not_empty = ne;
}
