-- ===== src/Base/Prefix.antt =====
-- `strings.HasPrefix`, and what stands behind a prefix. The prefix is the first argument.
use Prim.Native.Char.{Char, code}
use Prim.Native.Nat.{ℕ}
use Prim.Native.String.{String, [], ◌∷◌, ◌++◌}
use mathlib.Core.Path.{◌≡◌, refl, sym, ◌∙◌}
use mathlib.Core.Bool.{Bool, true, false, ◌&&◌}
use mathlib.Core.Option.{Option, none, some}
use mathlib.Core.Option.{some-injective, none-ne-some}
use mathlib.Core.Logic.{inl, inr}
use native.Mathlib.Omega.{arith}
use text.Mathlib.TextLemmas.{nil-append, cons-append}
use text.Mathlib.TextEquality.{Char-path}
use kausality.Base.Tests.{eqb, if◌then◌else◌, Bool-cases}

unfoldable pub has_prefix : String → String → Bool
has_prefix [] s = true
has_prefix (p ∷ prefix) [] = false
has_prefix (p ∷ prefix) (c ∷ s) = eqb (code p) (code c) && has_prefix prefix s

unfoldable pub cut_prefix : String → String → Option String
cut_prefix [] s = some s
cut_prefix (p ∷ prefix) [] = none
cut_prefix (p ∷ prefix) (c ∷ s) =
    let rest = cut_prefix prefix s in if eqb (code p) (code c) then rest else none

pub char_eq : (c d : Char) → eqb (code c) (code d) ≡ true → c ≡ d
char_eq c d h = Char-path c d (ground arith)

eqb_refl : (n : ℕ) → eqb n n ≡ true
eqb_refl n = ground arith

-- What stands behind the prefix, and only that.
pub cut_prefix-append : (prefix s : String) → cut_prefix prefix (prefix ++ s) ≡ some s
unfolding cut_prefix
cut_prefix-append [] s = rw (nil-append s) refl
cut_prefix-append (p ∷ prefix) s =
    rw (cons-append p prefix s, eqb_refl (code p), cut_prefix-append prefix s) refl

pub cut_prefix-eq-some :
    (prefix key rest : String) → cut_prefix prefix key ≡ some rest → key ≡ prefix ++ rest
unfolding cut_prefix
cut_prefix-eq-some [] key rest h = some-injective _ _ h ∙ sym (nil-append rest)
cut_prefix-eq-some (p ∷ prefix) [] rest h = cc
cut_prefix-eq-some (p ∷ prefix) (c ∷ s) rest h = elim (Bool-cases (eqb (code p) (code c))) [
  | inr e ↦ absurd (none-ne-some _ (rw e at h))
  | inl e ↦
      let tail = cut_prefix-eq-some prefix s rest (rw e at h) in
      let first = sym (char_eq p c e) in (λ i. first i ∷ tail i) ∙ sym (cons-append p prefix rest)
]
