-- ===== src/Samples/Fixtures.antt =====
-- A cluster of one object, and codecs that know one list each.
use kausality.Base.{
  ◌∷◌, some, String, pos, Bool, true, false, ◌==◌, if◌then◌else◌, [], none, Result, ok, err, ◌≡◌,
  ◌≢◌, refl, ap, sym, ok-injective, ◌∙◌,
}
use mathlib.Core.Bool.{false≢true}
use kausality.Annotations.{controllers_annotation}
use kausality.Kube.{
  OwnerReference, RawCondition, Object, ObjectRef, Client, Codec, SameMetadata, ReadsBack,
  RoundTrips, entry?,
}

abbrev pub parent : Object
parent = record {
  group = "apps";
  version = "v1";
  api_version = "apps/v1";
  kind = "Deployment";
  namespace = "shop";
  name = "web";
  uid = "u-1";
  generation = pos 4;
  deletion_timestamp = none;
  annotations = none;
  labels = [];
  owner_references = [];
  status = none;
}

abbrev pub parent_key : ObjectRef
parent_key = record {
  api_version = "apps/v1";
  kind = "Deployment";
  namespace = "shop";
  name = "web";
}

abbrev pub ready : RawCondition
ready = record {
  type = some "Ready";
  status = some "True";
  reason = none;
  message = none;
  observed_generation = some (pos 4);
}

abbrev pub synced : RawCondition
synced = record ready { type = some "Synced"; observed_generation = some (pos 3) }

-- A parent in its steady state, at the generation that its controller has seen.
abbrev pub steady : Object
steady = record parent {
  annotations = some ((controllers_annotation, "c1,c2") ∷ []);
  status =
      some (record { observed_generation = some (pos 4); conditions = some (some ready ∷ []) });
}

abbrev pub owner : OwnerReference
owner = record {
  api_version = "apps/v1";
  kind = "Deployment";
  name = "web";
  controller = some true;
}

abbrev pub child_object : Object
child_object = record parent {
  api_version = "v1";
  group = "";
  kind = "ConfigMap";
  name = "settings";
  owner_references = owner ∷ [];
}

-- The state is the one object; an update of another is refused.
abbrev get_one : Object → ObjectRef → Result Object
get_one w r = if w.name == r.name then ok w else err "not found"

abbrev update_one : Object → Object → Result Object
update_one w o = if w.name == o.name then ok o else err "not found"

abbrev parse_any : String → Result String
parse_any v = ok v

abbrev pub cluster : Client
cluster = record {
  World = Object;
  parse_group_version = parse_any;
  get = get_one;
  update = update_one;
}

abbrev is_ok : Result Object → Bool
is_ok (ok x) = true
is_ok (err e) = false

if_eq_ok :
    (b : Bool) (x y : Object) (e : String)
    → (if b then ok x else err e) ≡ ok y
    → (b ≡ true) × (x ≡ y)
if_eq_ok true x y e h = (refl, ok-injective h)
if_eq_ok false x y e h = absurd (false≢true (ap is_ok h))

same_of : (o p : Object) → o ≡ p → SameMetadata o p
same_of o p e = record {
  same_generation = ap (λ x. x.generation) e;
  same_annotations = λ k. ap (λ x. entry? x.annotations k) e;
}

pub cluster-ReadsBack : ReadsBack cluster
cluster-ReadsBack w r o m w' got done =
    let found = if_eq_ok _ _ _ _ got in
    let written = if_eq_ok _ _ _ _ done in
    let named : (w'.name == r.name) ≡ true =
      ap (λ x. x.name == r.name) (sym written.1)
      ∙ ap (λ x. x.name == r.name) (sym found.1)
      ∙ found.0 in
    (w', rw named refl, same_of _ w' written.1)

-- A codec that knows one value and its text.
abbrev known : {A : Type 0} → A → String → String → Result A
known value text s = if s == text then ok value else err "syntax error"

abbrev pub table : {A : Type 0} → String → A → Codec A
table text value = record { marshal = λ x. ok text; unmarshal = known value text }

pub table_trips :
    {A : Type 0} (text : String) (value : A)
    → text ≢ ""
    → (text == text) ≡ true
    → RoundTrips (table text value) value
table_trips text value h e = record {
  text = text;
  encodes = refl;
  not_empty = h;
  decodes = rw e refl;
}
