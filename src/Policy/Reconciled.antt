-- ===== src/Policy/Reconciled.antt =====
-- pkg/policy/controller.go: what a reconciliation that ends well has done.
use kausality.Base.{
  String, ℕ, Bool, true, false, List, [], ◌∷◌, Option, none, some, ok, Result-cases, ok-injective,
  any, ◌≡◌, ◌⊎◌, refl, sym, ap, ◌∙◌, inl, inr, Bool-cases, Option-cases,
}
use mathlib.Core.Option.{none-ne-some}
use kausality.Policy.Types.{Kausality, ResourceContext, contains}
use kausality.Policy.Rules.{ApiResourceList}
use kausality.Policy.Store.{resources_match}
use kausality.Policy.Resolution.{refresh}
use kausality.Policy.Expansion.{is_served}
use kausality.Policy.Grouping.{covers, spec_operations}
use kausality.Policy.Scope.{aggregate_rules-covers}
use kausality.Policy.Webhook.{WebhookRule, aggregate_rules}
use kausality.Policy.Reconcile.{
  ApiError, Answer, done, failed, PolicyObject, Webhook, WebhookConfig, PolicyClient, Outcome,
  requeue, resync, error, is_conflict, requeue_on_conflict, written, with_rules, update_rules,
  reconcile_webhook, reconcile_cluster_role, active, report_active, reconcile_rules,
}

pub Answer-cases :
    {A : Type 0} (a : Answer A) → ((x : A) × (a ≡ done x)) ⊎ ((e : ApiError) × (a ≡ failed e))
Answer-cases (done x) = inl (x, refl)
Answer-cases (failed e) = inr (e, refl)

List-cases : {A : Type 0} (xs : List A) → (xs ≡ []) ⊎ ((x : A) × (ys : List A) × (xs ≡ x ∷ ys))
List-cases [] = inl refl
List-cases (x ∷ xs) = inr (x, xs, refl)

pub some_first :
    {W : Type 0} {e : ApiError} {w w' : W}
    → ◌≡◌ {A = Option ApiError × W} (some e, w) (none, w')
    → ⊥
some_first h = none-ne-some _ (sym (ap (λ x. x.0) h))

written-ok :
    {W : Type 0} (what : String) (w w' : W) (a : Answer W)
    → written what w a ≡ (none, w')
    → a ≡ done w'
unfolding written
written-ok what w w' (done x) h = ap (λ (y : Option ApiError × _). done y.1) h
written-ok what w w' (failed e) h = absurd (some_first h)

requeue-ne-resync : requeue ≡ resync → ⊥
requeue-ne-resync h = cc

pub error-ne-resync : {e : ApiError} → error e ≡ resync → ⊥
error-ne-resync h = cc

pub requeue_on_conflict-ne-resync : (e : ApiError) → requeue_on_conflict e ≡ resync → ⊥
unfolding requeue_on_conflict
requeue_on_conflict-ne-resync e h = elim (Bool-cases (is_conflict e)) [
  | inl k ↦ requeue-ne-resync (rw k at h)
  | inr k ↦ error-ne-resync (rw k at h)
]

module _ {L : Type 0} (c : PolicyClient L) (webhook_name : String) (excluded : List String) where
  -- The webhook has taken the rules of all policies.
  pub record Applied (w w' : c.World) : Type 0 where
    pub policies : List (Kausality L)
    pub rules : List WebhookRule
    pub config : WebhookConfig
    pub first : Webhook
    pub rest : List Webhook
    pub listed : c.list_policies w ≡ done policies
    pub aggregated : aggregate_rules (c.discover w) policies ≡ ok rules
    pub updated :
        c.update_webhook w (with_rules c webhook_name excluded rules config first rest) ≡ done w'

  update_rules-ok :
      (w w' : c.World) (rules : List WebhookRule)
      → update_rules c webhook_name excluded w rules ≡ (none, w')
      → (config : WebhookConfig) × (first : Webhook) × (rest : List Webhook) × (c.update_webhook w
            (with_rules c webhook_name excluded rules config first rest)
          ≡ done w')
  unfolding update_rules
  update_rules-ok w w' rules h = elim (Answer-cases (c.get_webhook w webhook_name)) [
    | inr (e, r) ↦ absurd (some_first (rw (r, update_rules) at h))
    | inl (config, r) ↦ elim (List-cases config.webhooks) [
      | inl s ↦ absurd (some_first (rw (r, s, update_rules) at h))
      | inr (first, rest, s) ↦
          (config, first, rest, written-ok _ w w' _ (rw (r, s, update_rules) at h))
    ]
  ]

  pub reconcile_webhook-Applied :
      (w w' : c.World) → reconcile_webhook c webhook_name excluded w ≡ (none, w') → Applied w w'
  unfolding reconcile_webhook
  reconcile_webhook-Applied w w' h = elim (Answer-cases (c.list_policies w)) [
    | inr (e, p) ↦ absurd (some_first (rw (p, reconcile_webhook) at h))
    | inl (policies, p) ↦ elim (Result-cases (aggregate_rules (c.discover w) policies)) [
      | inr (e, q) ↦ absurd (some_first (rw (p, q, reconcile_webhook) at h))
      | inl (rules, q) ↦
          let (config, first, rest, done_it) =
            update_rules-ok w w' rules (rw (p, q, reconcile_webhook) at h) in
          record {
            policies = policies;
            rules = rules;
            config = config;
            first = first;
            rest = rest;
            listed = p;
            aggregated = q;
            updated = done_it;
          }
    ]
  ]

  -- The rules that the webhook has taken, at a resource that the server lists.
  pub Applied-covers :
      (w w' : c.World) (lists : List ApiResourceList) (op : String) (ctx : ResourceContext)
      (a : Applied w w')
      → (c.discover w).lists ≡ some lists
      → contains spec_operations op ≡ true
      → is_served lists ctx.resource ctx.group ≡ true
      → covers op ctx.group ctx.resource a.rules
        ≡ any (λ p. resources_match p.spec.resources ctx) (refresh a.policies)
  Applied-covers w w' lists op ctx a listed known served =
      let (rules, done_it, covered, status) =
        aggregate_rules-covers (c.discover w) lists a.policies op ctx listed known served in
      let same : a.rules ≡ rules = ok-injective (sym a.aggregated ∙ done_it) in
      ap (covers op ctx.group ctx.resource) same ∙ covered

  report_active-resync :
      (now : ℕ) (w w' : c.World) (p : PolicyObject L)
      → report_active c webhook_name excluded now w p ≡ (resync, w')
      → c.update_status w (active c webhook_name excluded now p) ≡ done w'
  unfolding report_active
  report_active-resync now w w' p h =
      elim (Answer-cases (c.update_status w (active c webhook_name excluded now p))) [
        | inl (x, e) ↦ e ∙ ap (λ (y : Outcome × c.World). done y.1) (rw (e, report_active) at h)
        | inr (refused, e) ↦
            absurd
              (requeue_on_conflict-ne-resync refused (ap (λ x. x.0) (rw (e, report_active) at h)))
      ]

  -- `Reconcile` behind the finalizer, from `w` to `w'`: the webhook takes the rules, then the cluster
  -- role is reconciled without a conflict, and then the status is written.
  abbrev pub Settled : ℕ → c.World → c.World → PolicyObject L → Type 0
  Settled now w w' p =
      (w1 : c.World) × Applied w w1
      × ((e : ApiError)
          → (reconcile_cluster_role c webhook_name excluded w1 p).0 ≡ some e
          → is_conflict e ≡ false)
      × (c.update_status (reconcile_cluster_role c webhook_name excluded w1 p).1
            (active c webhook_name excluded now p)
          ≡ done w')

  pub reconcile_rules-resync :
      (now : ℕ) (w w' : c.World) (p : PolicyObject L)
      → reconcile_rules c webhook_name excluded now w p ≡ (resync, w')
      → Settled now w w' p
  unfolding reconcile_rules
  reconcile_rules-resync now w w' p h =
      let run = reconcile_webhook c webhook_name excluded w in
      elim (Option-cases run.0) [
        | inr (e, k) ↦
            absurd (requeue_on_conflict-ne-resync e (ap (λ x. x.0) (rw (k, reconcile_rules) at h)))
        | inl k ↦
            let role = reconcile_cluster_role c webhook_name excluded run.1 p in
            let blocked : Bool = elim role.0 [ some e ↦ is_conflict e | none ↦ false ] in
            let applied = reconcile_webhook-Applied w run.1 (λ i. (k i, run.1)) in
            elim (Bool-cases blocked) [
              | inl b ↦ absurd (requeue-ne-resync (ap (λ x. x.0) (rw (k, b, reconcile_rules) at h)))
              | inr b ↦ (
                run.1,
                applied,
                λ e q.
                    ap (λ (o : Option ApiError). elim o [ some e ↦ is_conflict e | none ↦ false ])
                      (sym q)
                    ∙ b,
                report_active-resync now role.1 w' p (rw (k, b, reconcile_rules) at h),
              )
            ]
      ]
