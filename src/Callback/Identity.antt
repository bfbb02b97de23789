-- ===== src/Callback/Identity.antt =====
-- pkg/callback/id.go: what the identifier of a report tells apart. The API server keeps NUL bytes
-- out of the fields of a reference.
use Prim.Native.Char.{Char, code}
use Prim.Native.String.{◌++◌, [], ◌∷◌}
use kausality.Base.{String, Bool, false, eqb, ◌≡◌, ◌≢◌, ◌↔◌, refl, sym, ap, ◌∙◌}
use mathlib.Core.Bool.{false≢true}
use text.Mathlib.TextLemmas.{
  nil-append, cons-append, append_assoc, append-nil, head-eq_of_cons-eq, tail-eq_of_cons-eq,
}
use kausality.Callback.Reports.{
  ObjectReference, take, hash_object_ref, generate_drift_id, generate_resolution_id,
}

abbrev is_nul : Char → Bool
is_nul c = eqb (code c) 0

abbrev pub NoNul : String → Type 0
NoNul [] = Unit
NoNul (c ∷ s) = (is_nul c ≡ false) × NoNul s

-- No NUL in the four fields that the identifier is made of.
pub record IsPlainRef (ref : ObjectReference) : Type 0 where
  pub api_version : NoNul ref.api_version
  pub kind : NoNul ref.kind
  pub namespace : NoNul ref.namespace
  pub name : NoNul ref.name

-- The two references name the same object.
pub record SameObject (r q : ObjectReference) : Type 0 where
  pub api_version : r.api_version ≡ q.api_version
  pub kind : r.kind ≡ q.kind
  pub namespace : r.namespace ≡ q.namespace
  pub name : r.name ≡ q.name

nul-cons : (s : String) → "\0" ++ s ≡ "\0" ∷ s
nul-cons s = rw (cons-append, nil-append) refl

nul_not : (c : Char) → is_nul c ≡ false → ◌≢◌ {A = Char} c "\0"
nul_not c h e = false≢true (sym h ∙ ap is_nul e)

field_eq :
    (a b s t : String) → NoNul a → NoNul b → a ++ ("\0" ++ s) ≡ b ++ ("\0" ++ t) → (a ≡ b) × (s ≡ t)
field_eq [] [] s t p q h = (refl, tail-eq_of_cons-eq (simp (nil-append, nul-cons) at h))
field_eq [] (d ∷ b) s t p q h =
    absurd
      (nul_not d q.0 (sym (head-eq_of_cons-eq (simp (nil-append, nul-cons, cons-append) at h))))
field_eq (c ∷ a) [] s t p q h =
    absurd (nul_not c p.0 (head-eq_of_cons-eq (simp (nil-append, nul-cons, cons-append) at h)))
field_eq (c ∷ a) (d ∷ b) s t p q h =
    let whole = simp (cons-append) at h in
    let first = head-eq_of_cons-eq whole in
    let rest = field_eq a b s t p.1 q.1 (tail-eq_of_cons-eq whole) in
    ((λ i. first i ∷ rest.0 i), rest.1)

hash-append :
    (r : ObjectReference) (s : String)
    → hash_object_ref r ++ s
      ≡ r.api_version
        ++ ("\0" ++ (r.kind ++ ("\0" ++ (r.namespace ++ ("\0" ++ (r.name ++ ("\0" ++ s)))))))
unfolding hash_object_ref
hash-append r s = simp append_assoc refl

ref_eq :
    (r q : ObjectReference) (s t : String)
    → IsPlainRef r
    → IsPlainRef q
    → hash_object_ref r ++ s ≡ hash_object_ref q ++ t
    → SameObject r q × (s ≡ t)
ref_eq r q s t hr hq h =
    let (version, h1) =
      field_eq _ _ _ _ hr.api_version hq.api_version
        (sym (hash-append r s) ∙ h ∙ hash-append q t) in
    let (kind, h2) = field_eq _ _ _ _ hr.kind hq.kind h1 in
    let (namespace, h3) = field_eq _ _ _ _ hr.namespace hq.namespace h2 in
    let (name, h4) = field_eq _ _ _ _ hr.name hq.name h3 in
    (record { api_version = version; kind = kind; namespace = namespace; name = name }, h4)

SameObject-hash : (r q : ObjectReference) → SameObject r q → hash_object_ref r ≡ hash_object_ref q
unfolding hash_object_ref
SameObject-hash r q same = rw (same.api_version, same.kind, same.namespace, same.name) refl

-- Where the digest does not confuse the inputs of two reports, their identifiers are equal just if
-- the parents are the same object, the children are the same object and the differences are equal.
pub generate_drift_id-eq_iff :
    (digest : String → String) (p c p' c' : ObjectReference) (d d' : String)
    → IsPlainRef p
    → IsPlainRef c
    → IsPlainRef p'
    → IsPlainRef c'
    → (let input = hash_object_ref p ++ (hash_object_ref c ++ d) in
        let input' = hash_object_ref p' ++ (hash_object_ref c' ++ d') in
        take 16 (digest input) ≡ take 16 (digest input') → input ≡ input')
    → (generate_drift_id digest p c d ≡ generate_drift_id digest p' c' d')
      ↔ (SameObject p p' × (SameObject c c' × (d ≡ d')))
unfolding generate_drift_id
generate_drift_id-eq_iff digest p c p' c' d d' hp hc hp' hc' apart = (
  λ e.
      let (parent, rest) = ref_eq p p' _ _ hp hp' (apart e) in
      let (child, diff) = ref_eq c c' d d' hc hc' rest in (parent, (child, diff)),
  λ (parent, (child, diff)).
      rw (SameObject-hash p p' parent, SameObject-hash c c' child, diff) refl,
)

-- The identifier of a resolution is the one of a report without a difference.
pub resolution-drift :
    (digest : String → String) (p c : ObjectReference)
    → generate_resolution_id digest p c ≡ generate_drift_id digest p c ""
unfolding generate_resolution_id generate_drift_id
resolution-drift digest p c = rw append-nil refl
