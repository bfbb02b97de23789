-- ===== src/Samples/Reports.antt =====
-- The theorems on identifiers and on the store of a backend, at a digest with two values.
use Prim.Native.String.{◌++◌}
use kausality.Base.{String, pos, if◌then◌else◌, [], ◌∷◌, none, some, ◌≡◌, ◌≢◌, ◌↔◌, ◌==◌, ap, refl}
use mathlib.Core.Bool.{false≢true}
use kausality.Callback.Reports.{
  DriftReport, detected, resolved, ObjectReference, take, hash_object_ref, generate_drift_id,
  generate_resolution_id,
}
use kausality.Callback.Identity.{IsPlainRef, SameObject, generate_drift_id-eq_iff}
use kausality.Backend.{get, added, removed, after, get-after, resolved-stays}

abbrev ref : String → ObjectReference
ref name = record {
  api_version = "v1";
  kind = "Pod";
  namespace = "n";
  name = name;
  uid = "";
  generation = pos 1;
  observed_generation = pos 1;
  lifecycle_phase = "";
}

web-IsPlainRef : IsPlainRef (ref "w")
web-IsPlainRef = record {
  api_version = (refl, (refl, tt));
  kind = (refl, (refl, (refl, tt)));
  namespace = (refl, tt);
  name = (refl, tt);
}

db-IsPlainRef : IsPlainRef (ref "d")
db-IsPlainRef = record {
  api_version = (refl, (refl, tt));
  kind = (refl, (refl, (refl, tt)));
  namespace = (refl, tt);
  name = (refl, tt);
}

-- The first value is for two references without a difference.
abbrev digest : String → String
digest input =
    if input == "v1\0Pod\0n\0w\0v1\0Pod\0n\0d\0" then "0123456789abcdef" else "fedcba9876543210"

abbrev drift : DriftReport
drift = record {
  id = "fedcba9876543210";
  phase = detected;
  parent = ref "w";
  child = ref "d";
  old_object = none;
  new_object = "{}";
  request = record { user = "alice"; uid = "1"; operation = "CREATE" };
}

abbrev resolution : DriftReport
resolution = record drift { id = "0123456789abcdef"; phase = resolved }

apart :
    take 16 (digest (hash_object_ref (ref "w") ++ (hash_object_ref (ref "d") ++ "{}")))
      ≡ take 16 (digest (hash_object_ref (ref "w") ++ (hash_object_ref (ref "d") ++ "")))
    → hash_object_ref (ref "w") ++ (hash_object_ref (ref "d") ++ "{}")
      ≡ hash_object_ref (ref "w") ++ (hash_object_ref (ref "d") ++ "")
unfolding take hash_object_ref
apart e = absurd (false≢true (ap (λ s. s == "0123456789abcdef") e))

generate_drift_id-eq_iff_example :
    (generate_drift_id digest (ref "w") (ref "d") "{}"
      ≡ generate_drift_id digest (ref "w") (ref "d") "")
    ↔ (SameObject (ref "w") (ref "w")
        × (SameObject (ref "d") (ref "d") × (◌≡◌ {A = String} "{}" "")))
generate_drift_id-eq_iff_example =
    generate_drift_id-eq_iff digest (ref "w") (ref "d") (ref "w") (ref "d") "{}" "" web-IsPlainRef
      db-IsPlainRef web-IsPlainRef db-IsPlainRef apart

not_empty : ◌≢◌ {A = String} "{}" ""
not_empty e = false≢true (ap (λ s. s == "") e)

resolved-stays_example :
    get "fedcba9876543210" (after (added 9 resolution ∷ added 5 drift ∷ []))
    ≡ some (record { report = drift; received_at = 5 })
unfolding generate_drift_id generate_resolution_id hash_object_ref take
resolved-stays_example =
    resolved-stays digest (ref "w") (ref "d") "{}" 5 9 drift resolution [] web-IsPlainRef
      db-IsPlainRef not_empty apart refl refl refl

get-after_example :
    get "a" (after (removed "b" ∷ added 7 (record drift { id = "a" }) ∷ removed "a" ∷ []))
    ≡ some (record { report = record drift { id = "a" }; received_at = 7 })
get-after_example =
    get-after "a" (removed "b" ∷ added 7 (record drift { id = "a" }) ∷ removed "a" ∷ [])
