-- ===== src/Callback/Reports.antt =====
-- pkg/callback/v1alpha1/types.go and pkg/callback/id.go: reports and their identifiers. The digest,
-- SHA-256 in hexadecimal, is an argument.
use Prim.Native.String.{◌++◌, [], ◌∷◌}
use kausality.Base.{String, ℕ, zero, suc, ℤ, Option}

pub data DriftReportPhase : Type 0 where
  detected resolved : DriftReportPhase

pub record ObjectReference : Type 0 where
  pub api_version : String
  pub kind : String
  pub namespace : String
  pub name : String
  pub uid : String
  pub generation : ℤ
  pub observed_generation : ℤ
  pub lifecycle_phase : String

pub record RequestContext : Type 0 where
  pub user : String
  pub uid : String
  pub operation : String

-- The specification of a report, without the groups, the field manager and the dry-run mark of the
-- request.
pub record DriftReport : Type 0 where
  pub id : String
  pub phase : DriftReportPhase
  pub parent : ObjectReference
  pub child : ObjectReference
  pub old_object : Option String
  pub new_object : String
  pub request : RequestContext

-- The bytes that `hashObjectRef` writes: each field, and a NUL behind it.
unfoldable pub hash_object_ref : ObjectReference → String
hash_object_ref ref =
    ref.api_version
    ++ ("\0" ++ (ref.kind ++ ("\0" ++ (ref.namespace ++ ("\0" ++ (ref.name ++ "\0"))))))

unfoldable pub take : ℕ → String → String
take zero s = []
take (suc n) [] = []
take (suc n) (c ∷ s) = c ∷ take n s

unfoldable pub generate_drift_id :
    (String → String) → ObjectReference → ObjectReference → String → String
unfolding hash_object_ref take
generate_drift_id digest parent child spec_diff =
    take 16 (digest (hash_object_ref parent ++ (hash_object_ref child ++ spec_diff)))

unfoldable pub generate_resolution_id :
    (String → String) → ObjectReference → ObjectReference → String
unfolding hash_object_ref take
generate_resolution_id digest parent child =
    take 16 (digest (hash_object_ref parent ++ hash_object_ref child))
