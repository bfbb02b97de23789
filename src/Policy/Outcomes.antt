-- ===== src/Policy/Outcomes.antt =====
-- pkg/policy/controller.go: what the answer of `Reconcile` tells.
use kausality.Base.{
  String, ℕ, Bool, true, false, ◌==◌, List, Option, none, some, ◌≡◌, ◌⊎◌, inl, inr, Bool-cases,
}
use kausality.Policy.Conditions.{Condition, find}
use kausality.Policy.Reconcile.{
  ApiError, done, PolicyObject, PolicyClient, finalizer_name, finished, requeue, error, is_conflict,
  requeue_on_conflict, active,
}
use kausality.Policy.Reconciled.{Settled}

abbrev pub status_is : String → Option Condition → Bool
status_is status none = false
status_is status (some c) = c.status == status

-- The condition of the type has the status.
abbrev pub has_status : String → String → List Condition → Bool
has_status cond_type status conditions = status_is status (find cond_type conditions)

requeue-ne-finished : requeue ≡ finished → ⊥
requeue-ne-finished h = cc

error-ne-finished : {e : ApiError} → error e ≡ finished → ⊥
error-ne-finished h = cc

pub requeue_on_conflict-ne-finished : (e : ApiError) → requeue_on_conflict e ≡ finished → ⊥
unfolding requeue_on_conflict
requeue_on_conflict-ne-finished e h = elim (Bool-cases (is_conflict e)) [
  | inl k ↦ requeue-ne-finished (rw k at h)
  | inr k ↦ error-ne-finished (rw k at h)
]

module _ {L : Type 0} (c : PolicyClient L) (webhook_name : String) (excluded : List String) where
  -- What controllerutil and the API server do with finalizers.
  pub record FinalizerLaws : Type 0 where
    pub added :
        (fs : List String)
        → c.contains_finalizer (c.add_finalizer fs finalizer_name) finalizer_name ≡ true
    pub stored :
        (w w' : c.World) (p p' : PolicyObject L)
        → c.update_policy w p ≡ done (p', w')
        → p'.finalizers ≡ p.finalizers

  -- The policy that `Reconcile` works on, `p` in `w0`, from the fetched `p0` in `w`: the same, or
  -- what the client returned when the finalizer was added.
  abbrev pub Carries : c.World → c.World → PolicyObject L → PolicyObject L → Type 0
  Carries w w0 p0 p =
      ((c.contains_finalizer p0.finalizers finalizer_name ≡ true) × (p ≡ p0) × (w0 ≡ w))
      ⊎ ((c.contains_finalizer p0.finalizers finalizer_name ≡ false)
          × (c.update_policy w
                (record p0 { finalizers = c.add_finalizer p0.finalizers finalizer_name })
              ≡ done (p, w0)))

  abbrev pub Resynced : ℕ → c.World → c.World → PolicyObject L → Type 0
  Resynced now w w' p0 =
      (w0 : c.World) × (p : PolicyObject L) × Carries w w0 p0 p
      × (c.contains_finalizer p.finalizers finalizer_name ≡ true)
      × Settled c webhook_name excluded now w0 w' p
      × (has_status "Ready" "True" (active c webhook_name excluded now p).conditions ≡ true)
      × (has_status "WebhookConfigured" "True" (active c webhook_name excluded now p).conditions
          ≡ true)
