-- ===== src/Approval/Pruning.antt =====
-- pkg/approval/pruner.go: pruning removes nothing that could still be valid.
use kausality.Base.{
  subst, sym, Bool-cases, inl, inr, Bool, not, ◌&&◌, ◌||◌, ◌==◌, eq_iff, String, ℤ, pos, negsuc,
  eq_ℤ, leb_ℤ, true, false, ◌+◌, ◌≤◌, List, [], ◌∷◌, ◌++◌, All, some, ◌≡◌, refl, arith, keep,
  length, ap, ◌∙◌, length-append,
}
use kausality.Approval.Types.{Approval, ChildRef, matches, valid_under, is_valid, or_once}
use kausality.Approval.Checker.{first_matching_approval}
use kausality.Approval.Pruner.{kept_under, is_kept, prune_stale, prune}
use kausality.Approval.FirstMatch.{FirstMatch}
use kausality.Approval.Consumption.{consume_once-FirstMatch}

-- A number below the old generation is not the new one.
later-ne : (n g g' : ℤ) → leb_ℤ g n ≡ false → leb_ℤ g g' ≡ true → eq_ℤ n g' ≡ false
later-ne (pos n) (pos g) (pos g') h k = ground arith
later-ne (pos n) (pos g) (negsuc g') h k = ground arith
later-ne (pos n) (negsuc g) (pos g') h k = ground arith
later-ne (pos n) (negsuc g) (negsuc g') h k = ground arith
later-ne (negsuc n) (pos g) (pos g') h k = ground arith
later-ne (negsuc n) (pos g) (negsuc g') h k = ground arith
later-ne (negsuc n) (negsuc g) (pos g') h k = ground arith
later-ne (negsuc n) (negsuc g) (negsuc g') h k = ground arith

under_stale :
    (mode : String) (n g g' : ℤ)
    → leb_ℤ g g' ≡ true
    → kept_under mode n g ≡ false
    → valid_under mode n g' ≡ false
unfolding kept_under valid_under
under_stale mode n g g' h k = ground (arith, later-ne n g g')

is_kept-stale :
    (a : Approval) (g g' : ℤ) → leb_ℤ g g' ≡ true → is_kept g a ≡ false → is_valid a g' ≡ false
unfolding is_kept is_valid
is_kept-stale a g g' h k = under_stale (or_once a.mode) a.generation g g' h k

-- `PruneStale` at one generation leaves the approvals that are valid at that generation, or at any
-- later one, as they were and in their order.
pub prune_stale-valid :
    (approvals : List Approval) (g g' : ℤ)
    → leb_ℤ g g' ≡ true
    → keep (λ a. is_valid a g') (prune_stale approvals g) ≡ keep (λ a. is_valid a g') approvals
unfolding prune_stale
prune_stale-valid [] g g' h = refl
prune_stale-valid (a ∷ more) g g' h =
    ground (arith, is_kept-stale a g g' h, prune_stale-valid more g g' h)

prune_stale-append :
    (xs ys : List Approval) (g : ℤ)
    → prune_stale (xs ++ ys) g ≡ prune_stale xs g ++ prune_stale ys g
unfolding prune_stale
prune_stale-append [] ys g = refl
prune_stale-append (x ∷ xs) ys g = ground (arith, prune_stale-append xs ys g)

prune_stale-All :
    (child : ChildRef) (xs : List Approval) (g : ℤ)
    → All (λ b. matches b child ≡ false) xs
    → All (λ b. matches b child ≡ false) (prune_stale xs g)
unfolding prune_stale
prune_stale-All child [] g h = tt
prune_stale-All child (x ∷ xs) g h = ground (arith, prune_stale-All child xs g h.1)

length-prune_stale-le : (xs : List Approval) (g : ℤ) → length (prune_stale xs g) ≤ length xs
unfolding prune_stale
length-prune_stale-le [] g = omega arith
length-prune_stale-le (x ∷ xs) g = ground (arith, length-prune_stale-le xs g)

-- The entries before the first match do not decide for the child.
first_matching_skip :
    (child : ChildRef) (before after : List Approval) (g : ℤ)
    → All (λ b. matches b child ≡ false) before
    → first_matching_approval (before ++ after) child g ≡ first_matching_approval after child g
unfolding first_matching_approval
first_matching_skip child [] after g h = refl
first_matching_skip child (b ∷ before) after g h =
    rw (h.0, first_matching_approval) (first_matching_skip child before after g h.1)

-- An approval of mode "once", the empty one, or "generation", for an older generation.
abbrev pub is_stale : ℤ → Approval → Bool
is_stale g a =
    ((or_once a.mode == "once") || (or_once a.mode == "generation")) && not (leb_ℤ g a.generation)

kept_under-stale :
    (mode : String) (n g : ℤ)
    → kept_under mode n g ≡ not (((mode == "once") || (mode == "generation")) && not (leb_ℤ g n))
unfolding kept_under
kept_under-stale mode n g = elim (Bool-cases (mode == "always")) [
  | inl e ↦
      subst
        (λ m. kept_under m n g ≡ not (((m == "once") || (m == "generation")) && not (leb_ℤ g n)))
        (sym ((eq_iff mode "always").0 e)) refl
  | inr e ↦ elim (Bool-cases (mode == "once")) [
    | inl o ↦ rw (e, o, kept_under) (not_not (leb_ℤ g n))
    | inr o ↦ elim (Bool-cases (mode == "generation")) [
      | inl k ↦ rw (e, o, k, kept_under) (not_not (leb_ℤ g n))
      | inr k ↦ rw (e, o, k, kept_under) refl
    ]
  ]
]
  where
    not_not : (b : Bool) → b ≡ not (not b)
    not_not true = refl
    not_not false = refl

is_kept-not_stale : (g : ℤ) (a : Approval) → is_kept g a ≡ not (is_stale g a)
unfolding is_kept
is_kept-not_stale g a = kept_under-stale (or_once a.mode) a.generation g

prune_stale-keep :
    (xs : List Approval) (g : ℤ) → prune_stale xs g ≡ keep (λ a. not (is_stale g a)) xs
unfolding prune_stale
prune_stale-keep [] g = refl
prune_stale-keep (x ∷ xs) g = rw (is_kept-not_stale g x, prune_stale-keep xs g) refl

-- When the approval that the checker matched for a child has mode "once" or empty, `Prune` reports
-- a change, counts the removals, of which there is at least one, and leaves the entries before and
-- after the used one less the stale ones: those of mode "once", empty or "generation" for an older
-- generation. No approval among them is lost that is valid at this generation or a later one, and
-- the verdict for the child is that of the entries that stood after the used one and are not stale.
pub prune-used :
    (child : ChildRef) (approvals : List Approval) (a : Approval) (g : ℤ)
    → (f : FirstMatch child approvals a) → or_once a.mode ≡ "once"
    → let result = prune approvals (some a) g in
      (result.changed ≡ true)
      × (length result.approvals + result.removed_count ≡ length approvals)
      × (1 ≤ result.removed_count)
      × (result.approvals ≡ keep (λ b. not (is_stale g b)) (f.before ++ f.after))
      × ((g' : ℤ)
          → leb_ℤ g g' ≡ true
          → keep (λ b. is_valid b g') result.approvals
            ≡ keep (λ b. is_valid b g') (f.before ++ f.after))
      × (first_matching_approval result.approvals child g
          ≡ first_matching_approval (keep (λ b. not (is_stale g b)) f.after) child g)
unfolding prune
prune-used child approvals a g f once =
    let left = consume_once-FirstMatch child approvals a f once in
    let all = f.before ++ f.after in
    let shorter = length-prune_stale-le all g in
    let sizes = (ap length f.split ∙ length-append f.before (a ∷ f.after)) in
    let sizes' = length-append f.before f.after in
    rw left (
      ground (arith, shorter, sizes, sizes'),
      omega (arith, shorter, sizes, sizes'),
      omega (arith, shorter, sizes, sizes'),
      prune_stale-keep all g,
      λ g' later. prune_stale-valid all g g' later,
      ap (λ xs. first_matching_approval xs child g) (prune_stale-append f.before f.after g)
          ∙ first_matching_skip child _ _ g (prune_stale-All child f.before g f.missed)
          ∙ ap (λ xs. first_matching_approval xs child g) (prune_stale-keep f.after g),
    )
