-- ===== src/Plugin/Patched.antt =====
-- cmd/example-generic-control-plane/pkg/admission/kausality.go: what a patched object holds at a path.
use kausality.Base.{
  String, true, false, ◌||◌, ◌==◌, if◌then◌else◌, List, [], ◌∷◌, Option, none, some, Result, ok,
  err, ◌>>=◌, ok-injective, ◌≡◌, ◌⊎◌, refl, sym, ap, ◌∙◌, inl, inr, Bool-cases, eq_iff, eq_refl,
  arith, All,
}
use kausality.Plugin.Pointer.{parse_path}
use kausality.Plugin.Escapes.{IsAscii, Ends, pointer_of, parse_path-pointer_of}
use kausality.Plugin.Document.{
  Json, object, value, Fields, empty, field, field_of, set_field, remove_field, JsonPatch,
  apply_last, apply_at, apply_patch,
}

pub field_of-set_field :
    (key other : String) (new : Json) (fields : Fields)
    → field_of other (set_field key new fields)
      ≡ (if key == other then some new else field_of other fields)
unfolding field_of set_field
field_of-set_field key other new empty = ground (arith, eq_iff key other, eq_iff other key)
field_of-set_field key other new (field k j fields) = ground (
  arith,
  eq_iff key k,
  eq_iff other key,
  eq_iff key other,
  eq_iff other k,
  field_of-set_field key other new fields,
)

pub field_of-set_field_self :
    (key : String) (new : Json) (fields : Fields)
    → field_of key (set_field key new fields) ≡ some new
field_of-set_field_self key new fields =
    field_of-set_field key key new fields ∙ rw (eq_refl key) refl

field_of-set_field_other :
    (key other : String) (new : Json) (fields : Fields)
    → (key == other) ≡ false
    → field_of other (set_field key new fields) ≡ field_of other fields
field_of-set_field_other key other new fields d =
    field_of-set_field key other new fields ∙ rw d refl

field_of-remove_field :
    (key other : String) (fields : Fields)
    → field_of other (remove_field key fields)
      ≡ (if key == other then none else field_of other fields)
unfolding field_of remove_field
field_of-remove_field key other empty = ground arith
field_of-remove_field key other (field k j fields) =
    ground (
      arith,
      eq_iff key k,
      eq_iff key other,
      eq_iff other k,
      field_of-remove_field key other fields,
    )

-- What the keys lead to, from a value and from an object.
abbrev pub below : List String → Option Json → Option Json
below [] found = found
below (key ∷ more) none = none
below (key ∷ more) (some (value text)) = none
below (key ∷ more) (some (object fields)) = below more (field_of key fields)

abbrev pub at : String → List String → Fields → Option Json
at key more fields = below more (field_of key fields)

-- Two paths that part at a key: neither is the other's beginning.
abbrev pub Diverges : String → List String → String → List String → Type 0
Diverges key [] other rest = (key == other) ≡ false
Diverges key (next ∷ more) other [] = (key == other) ≡ false
Diverges key (next ∷ more) other (further ∷ rest) =
    ((key == other) ≡ false) ⊎ (((key == other) ≡ true) × Diverges next more further rest)

abbrev pub written : JsonPatch → Option Json
written patch = if patch.operation == "remove" then none else some patch.new_value

below-none : (keys : List String) → below keys none ≡ none
below-none [] = refl
below-none (key ∷ keys) = refl

Json-cases :
    (o : Option Json)
    → (o ≡ none)
      ⊎ (((inner : Fields) × (o ≡ some (object inner)))
          ⊎ ((text : String) × (o ≡ some (value text))))
Json-cases none = inl refl
Json-cases (some (object inner)) = inr (inl (inner, refl))
Json-cases (some (value text)) = inr (inr (text, refl))

err-ne-ok : {e : String} {f : Fields} → err e ≡ ok f → ⊥
err-ne-ok h = cc

set-ok :
    (key : String) (fields patched : Fields) (made : Result Fields)
    → (made >>= λ inner. ok (set_field key (object inner) fields)) ≡ ok patched
    → (inner : Fields) × (made ≡ ok inner) × (patched ≡ set_field key (object inner) fields)
set-ok key fields patched (ok inner) h = (inner, refl, sym (ok-injective h))
set-ok key fields patched (err e) h = absurd (err-ne-ok h)

-- A step of the walk: an object of the key, or an empty one that is made there, is patched and put back.
apply_at-step :
    (patch : JsonPatch) (key next : String) (more : List String) (fields patched : Fields)
    → apply_at patch key (next ∷ more) fields ≡ ok patched
    → (inner : Fields) × (made : Fields) × (apply_at patch next more inner ≡ ok made)
      × (patched ≡ set_field key (object made) fields)
      × ((further : String) (rest : List String)
          → below (further ∷ rest) (field_of key fields) ≡ below rest (field_of further inner))
unfolding apply_at field_of
apply_at-step patch key next more fields patched h = elim (Json-cases (field_of key fields)) [
  | inr (inr (text, g)) ↦ absurd (err-ne-ok (rw (g, apply_at) at h))
  | inr (inl (inner, g)) ↦
      let (made, m, p) =
        set-ok key fields patched (apply_at patch next more inner) (rw (g, apply_at) at h) in
      (inner, made, m, p, λ further rest. ap (below (further ∷ rest)) g)
  | inl g ↦ elim (Bool-cases (patch.operation == "add")) [
    | inr a ↦ absurd (err-ne-ok (rw (g, a, apply_at) at h))
    | inl a ↦
        let (made, m, p) =
          set-ok key fields patched (apply_at patch next more empty) (rw (g, a, apply_at) at h) in
        (empty, made, m, p, λ further rest. ap (below (further ∷ rest)) g ∙ sym (below-none rest))
  ]
]

-- The operation on the last key: what the key holds afterwards, and any other key.
apply_last-field_of :
    (patch : JsonPatch) (key other : String) (fields patched : Fields)
    → apply_last patch key fields ≡ ok patched
    → field_of other patched ≡ (if key == other then written patch else field_of other fields)
unfolding apply_last
apply_last-field_of patch key other fields patched h =
    elim (Bool-cases ((patch.operation == "add") || (patch.operation == "replace"))) [
      | inl s ↦
          let p = ok-injective (rw (s, apply_last) at h) in
          ap (field_of other) (sym p)
          ∙ field_of-set_field key other patch.new_value fields
          ∙ ap
              (λ b.
                if key == other
                then (if b then none else some patch.new_value)
                else field_of other fields)
              (sym (sets patch.operation s))
      | inr s ↦ elim (Bool-cases (patch.operation == "remove")) [
        | inr r ↦ absurd (err-ne-ok (rw (s, r, apply_last) at h))
        | inl r ↦
            let p = ok-injective (rw (s, r, apply_last) at h) in
            ap (field_of other) (sym p)
            ∙ field_of-remove_field key other fields
            ∙ ap
                (λ b.
                  if key == other
                  then (if b then none else some patch.new_value)
                  else field_of other fields)
                (sym r)
      ]
    ]
  where
    sets : (op : String) → ((op == "add") || (op == "replace")) ≡ true → (op == "remove") ≡ false
    sets op s = elim (Bool-cases (op == "add")) [
      | inl a ↦ ap (λ x. x == "remove") ((eq_iff op "add").0 a)
      | inr a ↦ ap (λ x. x == "remove") ((eq_iff op "replace").0 (rw a at s))
    ]

apply_at-at :
    (patch : JsonPatch) (key : String) (more : List String) (fields patched : Fields)
    → apply_at patch key more fields ≡ ok patched
    → at key more patched ≡ written patch
unfolding apply_at
apply_at-at patch key [] fields patched h =
    apply_last-field_of patch key key fields patched h ∙ rw (eq_refl key) refl
apply_at-at patch key (next ∷ more) fields patched h =
    let (inner, made, step, put_back, same) = apply_at-step patch key next more fields patched h in
    ap (at key (next ∷ more)) put_back
    ∙ ap (below (next ∷ more)) (field_of-set_field_self key (object made) fields)
    ∙ apply_at-at patch next more inner made step

apply_at-elsewhere :
    (patch : JsonPatch) (key : String) (more : List String) (other : String) (rest : List String)
    (fields patched : Fields)
    → Diverges key more other rest
    → apply_at patch key more fields ≡ ok patched
    → at other rest patched ≡ at other rest fields
unfolding apply_at
apply_at-elsewhere patch key [] other rest fields patched d h =
    ap (below rest) (apply_last-field_of patch key other fields patched h ∙ rw d refl)
apply_at-elsewhere patch key (next ∷ more) other [] fields patched d h =
    let (inner, made, step, put_back, same) = apply_at-step patch key next more fields patched h in
    ap (field_of other) put_back ∙ field_of-set_field_other key other (object made) fields d
apply_at-elsewhere patch key (next ∷ more) other (further ∷ rest) fields patched (inl d) h =
    let (inner, made, step, put_back, same) = apply_at-step patch key next more fields patched h in
    ap (at other (further ∷ rest)) put_back
    ∙ ap (below (further ∷ rest)) (field_of-set_field_other key other (object made) fields d)
apply_at-elsewhere patch key (next ∷ more) other (further ∷ rest) fields patched (inr d) h =
    let same_key = (eq_iff key other).0 d.0 in
    let (inner, made, step, put_back, same) = apply_at-step patch key next more fields patched h in
    ap (at other (further ∷ rest)) put_back
    ∙ ap (below (further ∷ rest)) (
        ap (λ k. field_of k (set_field key (object made) fields)) (sym same_key)
        ∙ field_of-set_field_self key (object made) fields)
    ∙ apply_at-elsewhere patch next more further rest inner made d.1 step
    ∙ sym (same further rest)
    ∙ ap (λ k. below (further ∷ rest) (field_of k fields)) same_key

-- A patch whose path is the pointer of the keys, ASCII and the last one not empty. If it succeeds,
-- the object holds the patch's value at the path, or nothing for "remove", and at every path that
-- parts from it what it held.
pub apply_patch-at :
    (patch : JsonPatch) (key : String) (more : List String) (fields patched : Fields)
    → All IsAscii (key ∷ more)
    → Ends key more
    → patch.path ≡ pointer_of (key ∷ more)
    → apply_patch fields patch ≡ ok patched
    → (at key more patched ≡ (if patch.operation == "remove" then none else some patch.new_value))
      × ((other : String) (rest : List String)
          → Diverges key more other rest
          → at other rest patched ≡ at other rest fields)
unfolding apply_patch
apply_patch-at patch key more fields patched ascii ends path h =
    let parsed : parse_path patch.path ≡ key ∷ more =
      ap parse_path path ∙ parse_path-pointer_of key more ascii ends in
    let applied = rw (parsed, apply_patch) at h in
    (
      apply_at-at patch key more fields patched applied,
      λ other rest d. apply_at-elsewhere patch key more other rest fields patched d applied,
    )
