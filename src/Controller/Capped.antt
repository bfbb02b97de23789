-- ===== src/Controller/Capped.antt =====
-- pkg/controller/tracker.go: what a recorded list of hashes holds.
use kausality.Base.{
  String, ℕ, zero, suc, ltb, ltb→lt, ltb-false→le, ap, ◌-◌, ◌≤◌, true, false, ◌==◌, List, [], ◌∷◌,
  ◌++◌, length, drop, keep, not, drop-append, ◌&&◌, map, All, All-append, All-drop, length-append,
  length-drop, ◌≡◌, refl, ◌⊎◌, inl, inr, arith, eq_iff, eq_refl, Bool-cases,
}
use kausality.Base.Text.{
  split_commas, trim_space, join_commas, IsClean, NoComma, split-join, split-NoComma, trim-NoComma,
  trim_idem,
}
use kausality.Controller.Hashes.{
  parse_hashes, contains_hash, append_capped, record_hash, add_hash, intersect,
}

-- `parseHashes` yields clean entries only.
trimmed-All :
    (ps : List String)
    → All NoComma ps
    → All IsClean (keep (λ p. not (p == "")) (map trim_space ps))
trimmed-All [] h = tt
trimmed-All (p ∷ ps) h = elim (Bool-cases (trim_space p == "")) [
  | inl e ↦ rw e (trimmed-All ps h.1)
  | inr e ↦ rw e (
    record {
      no_comma = trim-NoComma p h.0;
      trimmed = trim_idem p;
      not_empty = λ same. ground (arith, eq_iff (trim_space p) "", e, same);
    },
    trimmed-All ps h.1,
  )
]

pub parse_hashes-IsClean : (s : String) → All IsClean (parse_hashes s)
unfolding parse_hashes
parse_hashes-IsClean s = elim (Bool-cases (s == "")) [
  | inl e ↦ rw e tt
  | inr e ↦ rw e (trimmed-All (split_commas s) (split-NoComma s))
]

All-NoComma : (ps : List String) → All IsClean ps → All NoComma ps
All-NoComma [] h = tt
All-NoComma (p ∷ ps) h = (h.0.no_comma, All-NoComma ps h.1)

trim_clean :
    (ps : List String) → All IsClean ps → keep (λ p. not (p == "")) (map trim_space ps) ≡ ps
trim_clean [] h = refl
trim_clean (p ∷ ps) h =
    rw (h.0.trimmed, trim_clean ps h.1) (ground (arith, eq_iff p "", h.0.not_empty))

join-ne-empty :
    (p : String) (ps : List String) → All IsClean (p ∷ ps) → (join_commas (p ∷ ps) == "") ≡ false
unfolding split_commas
join-ne-empty p ps h = elim (Bool-cases (join_commas (p ∷ ps) == "")) [
  | inr e ↦ e
  | inl e ↦
      let parts = split-join p ps (All-NoComma (p ∷ ps) h) in
      let none_left : split_commas "" ≡ p ∷ ps = rw ((eq_iff _ _).0 e) at parts in
      absurd (h.0.not_empty (cc none_left))
]

-- Entries without commas and outer spaces that are not empty are read back as they were written.
pub parse-join : (ps : List String) → All IsClean ps → parse_hashes (join_commas ps) ≡ ps
unfolding parse_hashes
parse-join [] h = unfold join_commas in refl
parse-join (p ∷ ps) h =
    rw (join-ne-empty p ps h, split-join p ps (All-NoComma (p ∷ ps) h)) (trim_clean (p ∷ ps) h)

-- How `append(hashes, hash)` and the cut to five entries act on a list of entries.
append_capped-All :
    (P : String → Type 0) (hashes : List String) (hash : String)
    → All P hashes
    → P hash
    → All P (append_capped hashes hash)
unfolding append_capped
append_capped-All P hashes hash h p =
    let longer = All-append P hashes (hash ∷ []) h (p, tt) in
    let cut = All-drop P (length (hashes ++ hash ∷ []) - 5) (hashes ++ hash ∷ []) longer in
    ground (arith, longer, cut)

contains-append : (xs : List String) (hash : String) → contains_hash (xs ++ hash ∷ []) hash ≡ true
unfolding contains_hash
contains-append [] hash = rw (eq_refl hash)
contains-append (x ∷ xs) hash = ground (arith, contains-append xs hash)

append_capped-contains :
    (hashes : List String) (hash : String) → contains_hash (append_capped hashes hash) hash ≡ true
unfolding append_capped
append_capped-contains hashes hash =
    let n = length (hashes ++ hash ∷ []) - 5 in
    ground (
      arith,
      contains-append hashes hash,
      contains-append (drop n hashes) hash,
      drop-append n hashes (hash ∷ []),
      length-append hashes (hash ∷ []),
    )

take_drop : {A : Type 0} (n : ℕ) (xs : List A) → (front : List A) × (front ++ drop n xs ≡ xs)
take_drop zero xs = ([], refl)
take_drop (suc n) [] = ([], refl)
take_drop (suc n) (x ∷ xs) = let (front, e) = take_drop n xs in (x ∷ front, ap (◌∷◌ x) e)

-- The last five entries: nothing is dropped from a shorter list, and five are left of a longer one.
abbrev pub LastFive : List String → List String → Type 0
LastFive all left =
    (dropped : List String) × (dropped ++ left ≡ all)
    × (((dropped ≡ []) × (length left ≤ 5)) ⊎ (length left ≡ 5))

append_capped-LastFive :
    (hashes : List String) (hash : String)
    → LastFive (hashes ++ hash ∷ []) (append_capped hashes hash)
unfolding append_capped
append_capped-LastFive hashes hash =
    let longer = hashes ++ hash ∷ [] in
    elim (Bool-cases (ltb 5 (length longer))) [
      | inl e ↦
          let (front, split) = take_drop (length longer - 5) longer in
          rw e (
            front,
            split,
            inr (ground (arith, length-drop (length longer - 5) longer, ltb→lt _ _ e)),
          )
      | inr e ↦ rw e ([], refl, inl (refl, ltb-false→le _ _ e))
    ]

-- Recording a clean hash in an annotation: the hash is in the list that is read back; a list that
-- had it is unchanged; any other list is the old one with the hash behind it, cut to its last
-- five entries.
pub add_hash-parse :
    (existing hash : String)
    → IsClean hash
    → let hashes = parse_hashes existing in
      let recorded = parse_hashes (add_hash existing hash) in
      (contains_hash recorded hash ≡ true)
      × (((contains_hash hashes hash ≡ true) × (recorded ≡ hashes))
          ⊎ ((contains_hash hashes hash ≡ false) × LastFive (hashes ++ hash ∷ []) recorded))
unfolding add_hash record_hash
add_hash-parse existing hash clean =
    elim (Bool-cases (contains_hash (parse_hashes existing) hash)) [
      | inl e ↦ rw e (e, inl (refl, refl))
      | inr e ↦
          let hashes = parse_hashes existing in
          let back =
            parse-join (append_capped hashes hash)
              (append_capped-All IsClean hashes hash (parse_hashes-IsClean existing) clean) in
          rw (e, back)
            (append_capped-contains hashes hash, inr (refl, append_capped-LastFive hashes hash))
    ]

-- An entry is in the intersection of two lists exactly when it is in both.
pub contains-intersect :
    (a b : List String) (hash : String)
    → contains_hash (intersect a b) hash ≡ (contains_hash a hash && contains_hash b hash)
unfolding intersect contains_hash
contains-intersect a [] hash = ground arith
contains-intersect a (x ∷ b) hash = ground (arith, eq_iff x hash, contains-intersect a b hash)
