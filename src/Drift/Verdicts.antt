-- ===== src/Drift/Verdicts.antt =====
-- pkg/drift/detector.go: exactly when a mutation is drift, and who counts as the controller.
use kausality.Base.{
  String, eq_ℤ_iff, true, false, ◌==◌, if◌then◌else◌, List, [], ◌∷◌, is_empty, length, none, some,
  ok-injective, Result-cases, ok, err, ◌≡◌, refl, ◌↔◌, ◌⊎◌, inl, inr, arith, eq_iff, leb,
}
use mathlib.Core.Option.{some-injective}
use kausality.Kube.{Client, Object}
use kausality.Controller.Hashes.{contains_hash}
use kausality.Controller.Capped.{contains-intersect}
use kausality.Drift.State.{ParentState, unset, initialized, InitializationDetector}
use kausality.Drift.Lifecycle.{detect_phase, detect_phase-ne-unset}
use kausality.Drift.Resolver.{resolve_parent}
use kausality.Drift.Detector.{is_controller_by_hash, check_generation, detect_at, detect}

sole_updater : (u hash : String) → contains_hash (u ∷ []) hash ≡ true → (hash == u) ≡ true
unfolding contains_hash
sole_updater u hash h = ground (arith, eq_iff u hash, eq_iff hash u)

-- The handler puts the user's hash among the child's updaters before it asks. Then a parent with
-- recorded controllers makes the user a controller exactly when the hash is recorded; without any,
-- the user counts as the controller if no other user updated the child, and the question is open
-- if one did.
pub is_controller_of_updater :
    (state : ParentState) (hash : String) (updaters : List String)
    → contains_hash updaters hash ≡ true
    → is_controller_by_hash state hash updaters ≡ (
        if is_empty state.controllers
        then (if leb (length updaters) 1 then (true, true) else (false, false))
        else (contains_hash state.controllers hash, true))
unfolding is_controller_by_hash
is_controller_of_updater state hash [] h = unfold contains_hash in cc
is_controller_of_updater state hash (u ∷ []) h =
    ground (arith, contains-intersect (u ∷ []) state.controllers hash, sole_updater u hash h)
is_controller_of_updater state hash (u ∷ v ∷ updaters) h =
    ground (arith, contains-intersect (u ∷ v ∷ updaters) state.controllers hash)

pub detect_at-drift :
    (hash_username : String → String) (order : List InitializationDetector) (state : ParentState)
    (username : String) (updaters : List String)
    → ((detect_at hash_username order state username updaters).drift_detected ≡ true) ↔ (
        ((detect_phase order (some state) ≡ initialized)
          ⊎ (detect_phase order (some state) ≡ unset))
        × (is_controller_by_hash state (hash_username username) updaters ≡ (true, true))
        × (state.generation ≡ state.observed_generation))
unfolding detect_at check_generation
detect_at-drift hash_username order state username updaters =
    ground (arith, eq_ℤ_iff state.generation state.observed_generation)

detect_at-allowed :
    (hash_username : String → String) (order : List InitializationDetector) (state : ParentState)
    (username : String) (updaters : List String)
    → (detect_at hash_username order state username updaters).allowed ≡ true
unfolding detect_at check_generation
detect_at-allowed hash_username order state username updaters = ground arith

-- A mutation is drift exactly when the object has a controller parent that can be resolved, the
-- parent is in its steady phase, the user is known to be the controller, and the parent's
-- generation is the observed one. The detector answers with Allowed false exactly when the parent
-- cannot be resolved; that is the detector's own field, which the admission handler does not read,
-- so it is not by itself a refusal of the request.
pub detect_iff :
    (c : Client) (hash_username : String → String) (order : List InitializationDetector)
    (w : c.World) (o : Object) (username : String) (updaters : List String)
    → let result = detect c hash_username order w o username updaters in
      ((result.drift_detected ≡ true) ↔ (
        (state : ParentState) × (resolve_parent c w o ≡ ok (some state))
        × (detect_phase order (some state) ≡ initialized)
        × (is_controller_by_hash state (hash_username username) updaters ≡ (true, true))
        × (state.generation ≡ state.observed_generation)))
      × ((result.allowed ≡ false) ↔ ((e : String) × (resolve_parent c w o ≡ err e)))
unfolding detect
detect_iff c hash_username order w o username updaters =
    elim (Result-cases (resolve_parent c w o)) [
      | inr (e, p) ↦
          rw (p, detect) ((λ h. cc, λ (s, q, _, _, _). cc), (λ h. (e, refl), λ (_, _). refl))
      | inl (none, p) ↦ rw (p, detect) ((λ h. cc, λ (s, q, _, _, _). cc), (λ h. cc, λ (_, q). cc))
      | inl (some state, p) ↦
          let (to, from) = detect_at-drift hash_username order state username updaters in
          let fine = detect_at-allowed hash_username order state username updaters in
          let steady = detect_phase-ne-unset order (some state) in
          rw (p, detect)
            (
              (
                λ h.
                    let (phase, who, same) = to h in
                    (state, refl, ground (arith, phase, steady), who, same),
                λ (s, q, phase, who, same).
                    let e : state ≡ s = some-injective _ _ (ok-injective q) in
                    from (inl (rw e phase), rw e who, rw e same),
              ),
              (λ h. cc (fine, h), λ (_, q). cc),
            )
    ]
