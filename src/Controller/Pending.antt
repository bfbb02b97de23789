-- ===== src/Controller/Pending.antt =====
-- pkg/controller/tracker.go: the updates that are pending and the tests that skip one. Each function
-- below the tests is one section under the tracker's lock.
use Prim.Native.String.{◌++◌}
use kausality.Base.{
  String, ℤ, Bool, false, not, ◌&&◌, ◌||◌, ◌==◌, if◌then◌else◌, Option, none, some, is_some,
  option_or, Dict, lookup, insert, delete, pos,
}
use kausality.Base.Digits.{format_int}
use kausality.Annotations.{
  controllers_annotation, observed_generation_annotation, phase_annotation, phase_value_initialized,
}
use kausality.Kube.{Object, entry}
use kausality.Controller.Hashes.{parse_hashes, contains_hash}

-- `go_name` is the name of the object's Go type.
unfoldable pub object_type_name : String → Object → String
object_type_name go_name o = if not (o.kind == "") then o.kind else go_name

unfoldable pub object_key : String → Object → String
unfolding object_type_name
object_key go_name o = object_type_name go_name o ++ ("/" ++ (o.namespace ++ ("/" ++ o.name)))

unfoldable pub phase_key : String → Object → String
unfolding object_key
phase_key go_name o = object_key go_name o ++ "/phase"

-- `pending` and `pendingGen`.
pub record Pending : Type 0 where
  pub values : Dict String
  pub generations : Dict ℤ

-- The guard of `RecordControllerAsync`: both annotations are there already.
unfoldable pub is_recorded : Option (Dict String) → String → ℤ → Bool
unfolding contains_hash parse_hashes format_int
is_recorded annotations hash generation =
    contains_hash (parse_hashes (entry annotations controllers_annotation)) hash
    && (entry annotations observed_generation_annotation == format_int generation)

-- The answer says whether an update of the key was pending already.
unfoldable pub enqueue_controller : String → String → ℤ → Pending → Pending × Bool
unfolding insert lookup
enqueue_controller key hash generation s = (
  record { values = insert key hash s.values; generations = insert key generation s.generations },
  is_some (lookup key s.values),
)

-- The generation is 0 where the map has none.
unfoldable pub take_controller : String → Pending → Option (String × ℤ) × Pending
unfolding delete lookup
take_controller key s =
    let left : Pending = record {
      values = delete key s.values;
      generations = delete key s.generations;
    } in
    (
      elim (lookup key s.values) [
        | none ↦ none
        | some hash ↦ some (hash, option_or (lookup key s.generations) (pos 0))
      ],
      left,
    )

-- The guards of `RecordPhaseAsync` on the annotations.
unfoldable pub is_phase_kept : Option (Dict String) → String → Bool
is_phase_kept none phase = false
is_phase_kept (some annotations) phase =
    (entry (some annotations) phase_annotation == phase_value_initialized)
    || (entry (some annotations) phase_annotation == phase)

unfoldable pub enqueue_phase : String → String → Pending → Pending × Bool
unfolding insert lookup
enqueue_phase key phase s =
    (record s { values = insert key phase s.values }, is_some (lookup key s.values))

unfoldable pub take_phase : String → Pending → Option String × Pending
unfolding delete lookup
take_phase key s = (lookup key s.values, record s { values = delete key s.values })
