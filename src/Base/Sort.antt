-- ===== src/Base/Sort.antt =====
-- Go's order on strings, and sorting by a name. A string's order is that of its code points, which
-- UTF-8 keeps. `sort.Slice` is modelled by insertion; entries of one name may come in any order
-- there, so no theorem depends on it.
use Prim.Native.Char.{code}
use Prim.Native.String.{String, [], ◌∷◌, compare, then as ord_then}
use Prim.Native.String.compare
use Prim.Native.Nat.compare as numbers
use Prim.Native.Nat.{ℕ, zero, suc, compare as compare_ℕ}
use mathlib.Core.Path.{◌≡◌, refl, ap, ◌∙◌, sym}
use mathlib.Core.Bool.{Bool, true, false, ◌||◌, false≢true}
use mathlib.Core.Logic.{inl, inr}
use mathlib.Core.List.{List, [], ◌∷◌, Perm}
use mathlib.Core.List.Perm
use native.Mathlib.Omega.{arith}
use text.Mathlib.Text.{is_lt}
use kausality.Base.Tests.{if◌then◌else◌, Bool-cases}
use kausality.Base.Lists.{any}

abbrev pub str_lt : String → String → Bool
str_lt s t = is_lt (compare s t)

str_lt_step :
    (m n : ℕ) (s t : String)
    → (str_lt s t ≡ true → str_lt t s ≡ false)
    → is_lt (ord_then (compare_ℕ m n) (compare s t)) ≡ true
    → is_lt (ord_then (compare_ℕ n m) (compare t s)) ≡ false
str_lt_step zero zero s t k h = k h
str_lt_step zero (suc n) s t k h = rw (numbers.suc-zero n) refl
str_lt_step (suc m) zero s t k h =
    absurd (false≢true (ap (λ o. is_lt (ord_then o (compare s t))) (sym (numbers.suc-zero m)) ∙ h))
str_lt_step (suc m) (suc n) s t k h =
    rw (numbers.suc-suc n m) (str_lt_step m n s t k (rw (sym (numbers.suc-suc m n)) h))

pub str_lt_asym : (s t : String) → str_lt s t ≡ true → str_lt t s ≡ false
str_lt_asym [] [] h = refl
str_lt_asym [] (d ∷ t) h = rw (compare.cons-nil d t)
str_lt_asym (c ∷ s) [] h = absurd (false≢true (ap is_lt (sym (compare.cons-nil c s)) ∙ h))
str_lt_asym (c ∷ s) (d ∷ t) h =
    rw (compare.cons-cons d c t s)
      (str_lt_step (code c) (code d) s t (str_lt_asym s t) (rw (sym (compare.cons-cons c d s t)) h))

module _ {ℓ} {A : Type ℓ} (name : A → String) where
  insert_sorted : A → List A → List A
  insert_sorted x [] = x ∷ []
  insert_sorted x (y ∷ ys) =
      let later : List A = y ∷ insert_sorted x ys in
      if str_lt (name y) (name x) then later else x ∷ y ∷ ys

  unfoldable pub sort_by : List A → List A
  unfolding insert_sorted
  sort_by [] = []
  sort_by (x ∷ xs) = insert_sorted x (sort_by xs)

  -- No entry has a smaller name than the one before it.
  abbrev After : A → List A → Type 0
  After x [] = Unit
  After x (y ∷ ys) = str_lt (name y) (name x) ≡ false

  abbrev pub IsSorted : List A → Type 0
  IsSorted [] = Unit
  IsSorted (x ∷ xs) = After x xs × IsSorted xs

  insert_sorted-After :
      (x y : A) (ys : List A)
      → str_lt (name x) (name y) ≡ false
      → After y ys
      → After y (insert_sorted x ys)
  unfolding insert_sorted
  insert_sorted-After x y [] h k = h
  insert_sorted-After x y (z ∷ ys) h k = ground arith

  insert_sorted-IsSorted : (x : A) (ys : List A) → IsSorted ys → IsSorted (insert_sorted x ys)
  unfolding insert_sorted
  insert_sorted-IsSorted x [] h = (tt, tt)
  insert_sorted-IsSorted x (y ∷ ys) h = elim (Bool-cases (str_lt (name y) (name x))) [
    | inl e ↦ rw e (
      insert_sorted-After x y ys (str_lt_asym (name y) (name x) e) h.0,
      insert_sorted-IsSorted x ys h.1,
    )
    | inr e ↦ rw e (e, h)
  ]

  pub sort_by-IsSorted : (xs : List A) → IsSorted (sort_by xs)
  unfolding sort_by
  sort_by-IsSorted [] = tt
  sort_by-IsSorted (x ∷ xs) = insert_sorted-IsSorted x (sort_by xs) (sort_by-IsSorted xs)

  insert_sorted-perm : (x : A) (ys : List A) → Perm (insert_sorted x ys) (x ∷ ys)
  unfolding insert_sorted
  insert_sorted-perm x [] = Perm.refl (x ∷ [])
  insert_sorted-perm x (y ∷ ys) = elim (Bool-cases (str_lt (name y) (name x))) [
    | inl e ↦ rw e (Perm.trans (Perm.cons y (insert_sorted-perm x ys)) (Perm.swap x y ys))
    | inr e ↦ rw e (Perm.refl (x ∷ y ∷ ys))
  ]

  pub sort_by-perm : (xs : List A) → Perm (sort_by xs) xs
  unfolding sort_by
  sort_by-perm [] = Perm.refl []
  sort_by-perm (x ∷ xs) =
      Perm.trans (insert_sorted-perm x (sort_by xs)) (Perm.cons x (sort_by-perm xs))

  any-insert_sorted :
      (p : A → Bool) (x : A) (ys : List A) → any p (insert_sorted x ys) ≡ (p x || any p ys)
  unfolding insert_sorted
  any-insert_sorted p x [] = refl
  any-insert_sorted p x (y ∷ ys) = ground (arith, any-insert_sorted p x ys)

  -- Sorting keeps what is in the list.
  pub any-sort_by : (p : A → Bool) (xs : List A) → any p (sort_by xs) ≡ any p xs
  unfolding sort_by
  any-sort_by p [] = refl
  any-sort_by p (x ∷ xs) =
      any-insert_sorted p x (sort_by xs) ∙ ap (λ b. p x || b) (any-sort_by p xs)
