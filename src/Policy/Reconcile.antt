-- ===== src/Policy/Reconcile.antt =====
-- pkg/policy/controller.go and watcher.go: the reconcilers. The API server, the discovery client and
-- controllerutil's functions on finalizers are a parameter, as is the time.
use Prim.Native.String.{◌++◌}
use kausality.Base.{
  String, ℕ, ℤ, Bool, true, false, not, if◌then◌else◌, List, [], ◌∷◌, map, Option, none, some,
  is_some, is_empty, ok, err, Dict,
}
use kausality.Policy.Types.{Kausality}
use kausality.Policy.Rules.{DiscoveryAnswer}
use kausality.Policy.Conditions.{Condition, Verdict, set_condition}
use kausality.Policy.Webhook.{WebhookRule, PolicyRule, aggregate_rules, build_rbac_rules}

-- What `apierrors` tells of an error, which wrapping keeps, and the message.
pub data Reason : Type 0 where
  not_found conflict other_reason : Reason

pub record ApiError : Type 0 where
  pub reason : Reason
  pub message : String

pub data Answer (A : Type 0) : Type 0 where
  done : A → Answer A
  failed : ApiError → Answer A

pub record PolicyObject (L : Type 0) : Type 0 where
  pub policy : Kausality L
  pub uid : String
  pub generation : ℤ
  pub finalizers : List String
  pub conditions : List Condition

-- A webhook with the fields that the controller writes; the selector is a `NotIn` on the label of the
-- namespace's name.
pub record Webhook : Type 0 where
  pub name : String
  pub rules : List WebhookRule
  pub namespace_selector : Option (List String)

pub record WebhookConfig : Type 0 where
  pub name : String
  pub webhooks : List Webhook

pub record ClusterRole : Type 0 where
  pub name : String
  pub labels : Dict String
  pub owner_name : String
  pub owner_uid : String
  pub rules : List PolicyRule

-- The API server. A call that fails leaves the cluster as it was; an update of a policy answers with
-- the object as it is stored.
pub record PolicyClient (L : Type 0) : Type 1 where
  pub World : Type 0
  pub get_policy : World → String → Answer (PolicyObject L)
  pub list_policies : World → Answer (List (Kausality L))
  pub update_policy : World → PolicyObject L → Answer (PolicyObject L × World)
  pub update_status : World → PolicyObject L → Answer World
  pub discover : World → DiscoveryAnswer
  pub get_webhook : World → String → Answer WebhookConfig
  pub update_webhook : World → WebhookConfig → Answer World
  pub get_role : World → String → Answer ClusterRole
  pub create_role : World → ClusterRole → Answer World
  pub update_role : World → ClusterRole → Answer World
  pub contains_finalizer : List String → String → Bool
  pub add_finalizer : List String → String → List String
  pub remove_finalizer : List String → String → List String

abbrev pub finalizer_name : String
finalizer_name = "kausality.io/policy-controller"

-- `ctrl.Result` and the error.
pub data Outcome : Type 0 where
  finished requeue resync : Outcome
  error : ApiError → Outcome

unfoldable pub wrap_error : String → ApiError → ApiError
wrap_error what e = record e { message = what ++ e.message }

-- An error of a kind that `apierrors` does not know, which the discovery client's are taken to be.
unfoldable pub plain_error : String → ApiError
plain_error message = record { reason = other_reason; message = message }

unfoldable pub is_conflict : ApiError → Bool
is_conflict e = elim e.reason [ conflict ↦ true | not_found ↦ false | other_reason ↦ false ]

unfoldable pub is_not_found : ApiError → Bool
is_not_found e = elim e.reason [ not_found ↦ true | conflict ↦ false | other_reason ↦ false ]

unfoldable pub requeue_on_conflict : ApiError → Outcome
unfolding is_conflict
requeue_on_conflict e = if is_conflict e then requeue else error e

unfoldable pub build_namespace_selector : List String → Option (List String)
build_namespace_selector excluded = if is_empty excluded then none else some excluded

-- The answer of a write, as the error and the cluster.
unfoldable pub written : {W : Type 0} → String → W → Answer W → Option ApiError × W
unfolding wrap_error
written what w (done w') = (none, w')
written what w (failed e) = (some (wrap_error what e), w)

abbrev pub condition : String → String → String → String → Verdict
condition cond_type status reason message = record {
  cond_type = cond_type;
  status = status;
  reason = reason;
  message = message;
}

module _ {L : Type 0} (c : PolicyClient L) (webhook_name : String) (excluded : List String) where
  open c use {
    World, get_policy, list_policies, update_policy, update_status, discover, get_webhook,
    update_webhook, get_role, create_role, update_role, contains_finalizer, add_finalizer,
    remove_finalizer,
  }

  -- The first webhook takes the rules.
  unfoldable pub with_rules :
      List WebhookRule → WebhookConfig → Webhook → List Webhook → WebhookConfig
  unfolding build_namespace_selector
  with_rules rules config first rest = record config {
    webhooks =
        record first { rules = rules; namespace_selector = build_namespace_selector excluded }
        ∷ rest;
  }

  unfoldable pub update_rules : World → List WebhookRule → Option ApiError × World
  unfolding wrap_error plain_error with_rules written
  update_rules w rules = elim (get_webhook w webhook_name) [
    | failed e ↦ (
      some (wrap_error ("failed to get webhook configuration \"" ++ (webhook_name ++ "\": ")) e),
      w,
    )
    | done config ↦ elim config.webhooks [
      | [] ↦ (
        some (
            plain_error
              ("webhook configuration \"" ++ (webhook_name ++ "\" has no webhooks defined"))),
        w,
      )
      | first ∷ rest ↦
          written "failed to update webhook configuration: " w
            (update_webhook w (with_rules rules config first rest))
    ]
  ]

  unfoldable pub reconcile_webhook : World → Option ApiError × World
  unfolding wrap_error plain_error aggregate_rules update_rules
  reconcile_webhook w = elim (list_policies w) [
    | failed e ↦ (some (wrap_error "failed to list policies: " e), w)
    | done policies ↦ elim (aggregate_rules (discover w) policies) [
      | err e ↦ (some (plain_error ("failed to aggregate rules: " ++ e)), w)
      | ok rules ↦ update_rules w rules
    ]
  ]

  unfoldable pub desired_role : PolicyObject L → List PolicyRule → ClusterRole
  desired_role p rules = record {
    name = "kausality-policy-" ++ p.policy.name;
    labels =
        ("kausality.io/aggregate-to-webhook-resources", "true")
        ∷ ("app.kubernetes.io/managed-by", "kausality")
        ∷ ("kausality.io/policy", p.policy.name)
        ∷ [];
    owner_name = p.policy.name;
    owner_uid = p.uid;
    rules = rules;
  }

  unfoldable pub reconcile_cluster_role : World → PolicyObject L → Option ApiError × World
  unfolding wrap_error plain_error build_rbac_rules desired_role is_not_found written
  reconcile_cluster_role w p = elim (build_rbac_rules (discover w) p.policy) [
    | err e ↦ (some (plain_error ("failed to build RBAC rules: " ++ e)), w)
    | ok rules ↦
        let desired = desired_role p rules in
        elim (get_role w desired.name) [
          | failed e ↦
              if is_not_found e
              then written "failed to create ClusterRole: " w (create_role w desired)
              else (some (wrap_error "failed to get ClusterRole: " e), w)
          | done existing ↦
              written "failed to update ClusterRole: " w
                (update_role w (record existing { labels = desired.labels; rules = desired.rules }))
        ]
  ]

  -- Two calls of `setCondition`.
  unfoldable pub set_both : ℕ → Verdict → Verdict → PolicyObject L → PolicyObject L
  unfolding set_condition
  set_both now webhook ready p = record p {
    conditions =
        set_condition now p.generation ready (set_condition now p.generation webhook p.conditions);
  }

  unfoldable pub active : ℕ → PolicyObject L → PolicyObject L
  unfolding set_both
  active now p =
      set_both now (condition "WebhookConfigured" "True" "RulesApplied" "Webhook rules updated")
        (condition "Ready" "True" "Reconciled" "Policy is active") p

  unfoldable pub inactive : ℕ → ApiError → PolicyObject L → PolicyObject L
  unfolding set_both
  inactive now e p =
      set_both now (condition "WebhookConfigured" "False" "ReconcileFailed" e.message)
        (condition "Ready" "False" "WebhookNotConfigured" "Webhook configuration failed") p

  -- `Reconcile` behind the cluster role.
  unfoldable pub report_active : ℕ → World → PolicyObject L → Outcome × World
  unfolding active requeue_on_conflict
  report_active now w p = elim (update_status w (active now p)) [
    | failed e ↦ (requeue_on_conflict e, w)
    | done w' ↦ (resync, w')
  ]

  -- `Reconcile` behind the finalizer.
  unfoldable pub reconcile_rules : ℕ → World → PolicyObject L → Outcome × World
  unfolding reconcile_webhook inactive requeue_on_conflict is_conflict reconcile_cluster_role
      report_active
  reconcile_rules now w p =
      let (webhook_error, w1) = reconcile_webhook w in
      let (role_error, w2) = reconcile_cluster_role w1 p in
      elim webhook_error [
        | some e ↦ (
          requeue_on_conflict e,
          elim (update_status w1 (inactive now e p)) [ done w' ↦ w' | failed e' ↦ w1 ],
        )
        | none ↦
            if elim role_error [ some e ↦ is_conflict e | none ↦ false ]
            then (requeue, w2)
            else report_active now w2 p
      ]

  unfoldable pub finish_deletion : World → PolicyObject L → Outcome × World
  unfolding reconcile_webhook requeue_on_conflict
  finish_deletion w p =
      let (webhook_error, w1) = reconcile_webhook w in
      let released = record p { finalizers = remove_finalizer p.finalizers finalizer_name } in
      if not (contains_finalizer p.finalizers finalizer_name)
      then (finished, w)
      else elim webhook_error [
        | some e ↦ (requeue_on_conflict e, w1)
        | none ↦ elim (update_policy w1 released) [
          | failed e ↦ (requeue_on_conflict e, w1)
          | done (p', w') ↦ (finished, w')
        ]
      ]

  unfoldable pub reconcile_live : ℕ → World → PolicyObject L → Outcome × World
  unfolding reconcile_rules requeue_on_conflict
  reconcile_live now w p =
      let kept = record p { finalizers = add_finalizer p.finalizers finalizer_name } in
      if not (contains_finalizer p.finalizers finalizer_name)
      then elim (update_policy w kept) [
        | failed e ↦ (requeue_on_conflict e, w)
        | done (p', w') ↦ reconcile_rules now w' p'
      ]
      else reconcile_rules now w p

  unfoldable pub reconcile : ℕ → World → String → Outcome × World
  unfolding is_not_found finish_deletion reconcile_live
  reconcile now w name = elim (get_policy w name) [
    | failed e ↦ (if is_not_found e then finished else error e, w)
    | done p ↦
        if is_some p.policy.deletion_timestamp then finish_deletion w p else reconcile_live now w p
  ]

  -- `mapCRDToKausalityPolicies`: the names of the policies to reconcile.
  unfoldable pub map_crd : World → List String
  map_crd w = elim (list_policies w) [ failed e ↦ [] | done policies ↦ map (λ p. p.name) policies ]
