-- ===== src/Config.antt =====
-- pkg/config/config.go: the legacy configuration of drift detection. `selects` gives the verdict of
-- a label selector, or `none` for an invalid one.
use Prim.Native.String.{◌++◌}
use kausality.Base.{
  String, Bool, true, false, not, ◌==◌, ◌||◌, ◌&&◌, if◌then◌else◌, List, [], ◌∷◌, is_empty, any,
  Option, none, some, option_or, Dict, ◌≡◌, ◌⊎◌, inl, inr, subst, arith, Bool-cases,
}
use mathlib.Core.Option.{some-injective, none-ne-some}
use kausality.Base.Letters.{to_lower}
use kausality.Policy.Types.{is_valid_mode, mode_log, mode_by_annotations, contains}
use kausality.Policy.Precedence.{annotations_valid, valid-one_of}

pub record DriftDetectionOverride (L : Type 0) : Type 0 where
  pub api_groups : List String
  pub resources : List String
  pub namespaces : List String
  pub namespace_selector : Option L
  pub object_selector : Option L
  pub mode : String

-- `DriftDetection`; the backends are part of the wiring.
pub record Config (L : Type 0) : Type 0 where
  pub default_mode : String
  pub overrides : List (DriftDetectionOverride L)

pub record ConfigContext : Type 0 where
  pub group : String
  pub kind : String
  pub namespace : String
  pub object_labels : Dict String
  pub namespace_labels : Dict String

-- The loop of `Validate`; the messages are shortened.
unfoldable pub validate_overrides : {L : Type 0} → List (DriftDetectionOverride L) → Bool
unfolding is_valid_mode
validate_overrides [] = true
validate_overrides (o ∷ overrides) =
    if is_empty o.api_groups
    then false
    else if is_empty o.resources
    then false
    else if not (is_valid_mode o.mode)
    then false
    else validate_overrides overrides

unfoldable pub validate : {L : Type 0} → Config L → Bool
unfolding validate_overrides is_valid_mode
validate c = if not (is_valid_mode c.default_mode) then false else validate_overrides c.overrides

-- What `Load` does with the parsed file: an empty mode is filled in.
unfoldable pub with_defaults : {L : Type 0} → Config L → Config L
with_defaults c = record c {
  default_mode = if c.default_mode == "" then mode_log else c.default_mode;
}

unfoldable pub load : {L : Type 0} → Config L → Option (Config L)
unfolding validate with_defaults
load c = if validate (with_defaults c) then some (with_defaults c) else none

unfoldable pub matches_resource : {L : Type 0} → DriftDetectionOverride L → String → Bool
unfolding to_lower
matches_resource o kind = any (λ r. (r == "*") || (r == (to_lower kind ++ "s"))) o.resources

module _ {L : Type 0} (selects : L → Dict String → Option Bool) where
  unfoldable pub matches_selector : Option L → Dict String → Bool
  matches_selector none labels = true
  matches_selector (some l) labels = option_or (selects l labels) false

  unfoldable pub matches_context : DriftDetectionOverride L → ConfigContext → Bool
  unfolding matches_resource matches_selector
  matches_context o ctx =
      if not (contains o.api_groups ctx.group)
      then false
      else if not (matches_resource o ctx.kind)
      then false
      else if not (is_empty o.namespaces) && not (contains o.namespaces ctx.namespace)
      then false
      else if not (matches_selector o.namespace_selector ctx.namespace_labels)
      then false
      else matches_selector o.object_selector ctx.object_labels

  unfoldable pub mode_from : List (DriftDetectionOverride L) → String → ConfigContext → String
  unfolding matches_context
  mode_from [] default_mode ctx = default_mode
  mode_from (o ∷ overrides) default_mode ctx =
      if matches_context o ctx then o.mode else mode_from overrides default_mode ctx

  unfoldable pub get_mode_for_resource_context : Config L → ConfigContext → String
  unfolding mode_from
  get_mode_for_resource_context c ctx = mode_from c.overrides c.default_mode ctx

  unfoldable pub resolve_mode_with_annotations :
      Config L → Dict String → Dict String → ConfigContext → String
  unfolding mode_by_annotations get_mode_for_resource_context
  resolve_mode_with_annotations c object_annotations namespace_annotations ctx =
      mode_by_annotations object_annotations namespace_annotations
        (get_mode_for_resource_context c ctx)

  valid_override :
      (o : DriftDetectionOverride L) (overrides : List (DriftDetectionOverride L))
      → validate_overrides (o ∷ overrides) ≡ true
      → (is_valid_mode o.mode ≡ true) × (validate_overrides overrides ≡ true)
  unfolding validate_overrides
  valid_override o overrides h = ground arith

  validate_parts :
      (c : Config L)
      → validate c ≡ true
      → (is_valid_mode c.default_mode ≡ true) × (validate_overrides c.overrides ≡ true)
  unfolding validate
  validate_parts c h = ground arith

  loaded_valid :
      (file loaded : Config L)
      → load file ≡ some loaded
      → (is_valid_mode loaded.default_mode ≡ true) × (validate_overrides loaded.overrides ≡ true)
  unfolding load
  loaded_valid file loaded h = elim (Bool-cases (validate (with_defaults file))) [
    | inl e ↦
        subst
          (λ (c : Config L).
            (is_valid_mode c.default_mode ≡ true) × (validate_overrides c.overrides ≡ true))
          (some-injective _ _ (rw e at h)) (validate_parts (with_defaults file) e)
    | inr e ↦ absurd (none-ne-some _ (rw e at h))
  ]

  mode_from_valid :
      (overrides : List (DriftDetectionOverride L)) (default_mode : String) (ctx : ConfigContext)
      → validate_overrides overrides ≡ true
      → is_valid_mode default_mode ≡ true
      → is_valid_mode (mode_from overrides default_mode ctx) ≡ true
  unfolding mode_from validate_overrides
  mode_from_valid [] default_mode ctx h k = k
  mode_from_valid (o ∷ overrides) default_mode ctx h k =
      let (valid, rest) = valid_override o overrides h in
      elim (Bool-cases (matches_context o ctx)) [
        | inl e ↦ rw e valid
        | inr e ↦ rw e (mode_from_valid overrides default_mode ctx rest k)
      ]

  -- A configuration that `Load` accepts only ever gives the modes "log" and "enforce".
  pub load-valid :
      (file loaded : Config L) (object namespace : Dict String) (ctx : ConfigContext)
      → load file ≡ some loaded
      → let mode = resolve_mode_with_annotations loaded object namespace ctx in
        (mode ≡ "log") ⊎ (mode ≡ "enforce")
  unfolding resolve_mode_with_annotations get_mode_for_resource_context
  load-valid file loaded object namespace ctx h =
      let (valid, rest) = loaded_valid file loaded h in
      valid-one_of _ (
        annotations_valid object namespace _
          (mode_from_valid loaded.overrides loaded.default_mode ctx rest valid))
