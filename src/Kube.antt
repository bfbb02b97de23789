-- ===== src/Kube.antt =====
-- What the program reads of Kubernetes objects, and the API client and JSON codec that it is
-- handed. These stand for code outside the repository: the records below are parameters of the
-- model, and the laws are stated where a theorem needs them.
use kausality.Base.{
  String, ℕ, ℤ, Bool, Option, none, some, List, Dict, lookup, option_or, Result, ok, ◌≡◌, ◌≢◌,
}

-- metav1.OwnerReference. `controller` is a pointer in the source.
pub record OwnerReference : Type 0 where
  pub api_version : String
  pub kind : String
  pub name : String
  pub controller : Option Bool

-- One entry of `status.conditions` as the unstructured accessors see it; a field that is missing
-- or of another type is `none`.
pub record RawCondition : Type 0 where
  pub type : Option String
  pub status : Option String
  pub reason : Option String
  pub message : Option String
  pub observed_generation : Option ℤ

-- The `status` map. An entry of `conditions` that is no map is `none`.
pub record Status : Type 0 where
  pub observed_generation : Option ℤ
  pub conditions : Option (List (Option RawCondition))

-- An unstructured object. `api_version` is `gvk.GroupVersion().String()`; `annotations` is `none`
-- for a nil map.
pub record Object : Type 0 where
  pub group : String
  pub version : String
  pub api_version : String
  pub kind : String
  pub namespace : String
  pub name : String
  pub uid : String
  pub generation : ℤ
  pub deletion_timestamp : Option ℕ
  pub annotations : Option (Dict String)
  pub labels : Dict String
  pub owner_references : List OwnerReference
  pub status : Option Status

-- Reading a map that may be nil: `m[k]` is "" on a missing key.
abbrev pub entry? : Option (Dict String) → String → Option String
entry? none k = none
entry? (some m) k = lookup k m

abbrev pub entry : Option (Dict String) → String → String
entry m k = option_or (entry? m k) ""

-- The identity under which an object is fetched: its kind, and the key of its namespace and name.
pub record ObjectRef : Type 0 where
  pub api_version : String
  pub kind : String
  pub namespace : String
  pub name : String

-- controller-runtime's client over some state of the cluster, and apimachinery's check of an API
-- version. An update that fails leaves the cluster as it was.
pub record Client : Type 1 where
  pub World : Type 0
  pub parse_group_version : String → Result String
  pub get : World → ObjectRef → Result Object
  pub update : World → Object → Result World

-- encoding/json at one type.
pub record Codec {ℓ} (A : Type ℓ) : Type ℓ where
  pub marshal : A → Result String
  pub unmarshal : String → Result A

-- The value is encoded to a text that is not empty and is decoded to the value again.
pub record RoundTrips {A : Type 0} (c : Codec A) (a : A) : Type 0 where
  pub text : String
  pub encodes : c.marshal a ≡ ok text
  pub not_empty : text ≢ ""
  pub decodes : c.unmarshal text ≡ ok a

-- The two objects agree on what the approval code reads of a parent.
pub record SameMetadata (o p : Object) : Type 0 where
  pub same_generation : o.generation ≡ p.generation
  pub same_annotations : (k : String) → entry? o.annotations k ≡ entry? p.annotations k

-- An update that changes no more than the annotations of a stored object is read back.
abbrev pub ReadsBack : Client → Type 0
ReadsBack c =
    (w : c.World) (r : ObjectRef) (o : Object) (m : Dict String) (w' : c.World)
    → c.get w r ≡ ok o
    → c.update w (record o { annotations = some m }) ≡ ok w'
    → (p : Object) × (c.get w' r ≡ ok p) × SameMetadata (record o { annotations = some m }) p
