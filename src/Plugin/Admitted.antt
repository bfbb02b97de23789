-- ===== src/Plugin/Admitted.antt =====
-- cmd/example-generic-control-plane/pkg/admission/kausality.go: what the plugin refuses.
use kausality.Base.{
  String, ℕ, Bool, true, false, not, ◌&&◌, ◌||◌, ◌==◌, if◌then◌else◌, none, some, ok, err,
  Result-cases, ◌≡◌, ◌↔◌, refl, sym, ap, ◌∙◌, inl, inr, Bool-cases, arith,
}
use mathlib.Core.Bool.{false≢true}
use mathlib.Core.Option.{some-injective, none-ne-some}
use kausality.Admission.Requests.{Request, Handler}
use kausality.Admission.Dispatch.{handle}
use kausality.Plugin.Admit.{Attributes, Scheme, to_admission_request, admit_request, admit}

abbrev pub is_relevant : String → Bool
is_relevant sub_resource = (sub_resource == "") || (sub_resource == "status")

skipped_iff : (sub : String) → (not (sub == "") && not (sub == "status")) ≡ not (is_relevant sub)
skipped_iff sub = ground arith

refusal_of :
    (allowed : Bool) (text message : String)
    → ((if not allowed then some text else none) ≡ some message)
      ↔ ((allowed ≡ false) × (text ≡ message))
refusal_of true text message = (λ e. absurd (none-ne-some _ e), λ e. absurd (false≢true (sym e.0)))
refusal_of false text message = (λ e. (refl, some-injective _ _ e), λ e. ap (λ x. some x) e.1)

err-ne-ok : {A : Type 0} {e : String} {a : A} → err e ≡ ok a → ⊥
err-ne-ok h = cc

module _ (s : Scheme) (h : Handler) where
  refused_request :
      (w : h.client.World) (now : ℕ) (a : Attributes s.Obj) (req : Request) (message : String)
      → ((admit_request s h w now a req).refusal ≡ some message) ↔ (
          ((handle h w now req).response.allowed ≡ false)
          × ((handle h w now req).response.message ≡ message))
  unfolding admit_request
  refused_request w now a req message =
      let response = (handle h w now req).response in
      refusal_of response.allowed response.message message

  admit-request :
      (w : h.client.World) (now : ℕ) (a : Attributes s.Obj) (req : Request)
      → is_relevant a.sub_resource ≡ true
      → to_admission_request s a ≡ ok req
      → admit s h w now a ≡ admit_request s h w now a req
  unfolding admit
  admit-request w now a req r q = rw (skipped_iff a.sub_resource, r, q, admit) refl

  admit-skipped :
      (w : h.client.World) (now : ℕ) (a : Attributes s.Obj)
      → is_relevant a.sub_resource ≡ false
      → (admit s h w now a).refusal ≡ none
  unfolding admit
  admit-skipped w now a r = rw (skipped_iff a.sub_resource, r, admit) refl

  admit-unreadable :
      (w : h.client.World) (now : ℕ) (a : Attributes s.Obj) (e : String)
      → to_admission_request s a ≡ err e
      → (admit s h w now a).refusal ≡ none
  unfolding admit
  admit-unreadable w now a e q =
      elim (Bool-cases (not (a.sub_resource == "") && not (a.sub_resource == "status"))) [
        | inl k ↦ rw (k, admit) refl
        | inr k ↦ rw (k, q, admit) refl
      ]

  -- The plugin refuses a request with a message exactly if the request is for the object itself or
  -- its status, its objects can be encoded, and the handler refuses it with this message.
  pub admit_iff :
      (w : h.client.World) (now : ℕ) (a : Attributes s.Obj) (message : String)
      → ((admit s h w now a).refusal ≡ some message) ↔ (
          (is_relevant a.sub_resource ≡ true)
          × (req : Request) × (to_admission_request s a ≡ ok req)
          × ((handle h w now req).response.allowed ≡ false)
          × ((handle h w now req).response.message ≡ message))
  admit_iff w now a message = (forward, backward)
    where
      forward :
          (admit s h w now a).refusal ≡ some message
          → (is_relevant a.sub_resource ≡ true)
            × (req : Request) × (to_admission_request s a ≡ ok req)
            × ((handle h w now req).response.allowed ≡ false)
            × ((handle h w now req).response.message ≡ message)
      forward e = elim (Bool-cases (is_relevant a.sub_resource)) [
        | inr r ↦ absurd (none-ne-some _ (sym (admit-skipped w now a r) ∙ e))
        | inl r ↦ elim (Result-cases (to_admission_request s a)) [
          | inr (why, q) ↦ absurd (none-ne-some _ (sym (admit-unreadable w now a why q) ∙ e))
          | inl (req, q) ↦
              let refused =
                (refused_request w now a req message).0
                  (sym (ap (λ x. x.refusal) (admit-request w now a req r q)) ∙ e) in
              (r, req, q, refused.0, refused.1)
        ]
      ]

      backward :
          (is_relevant a.sub_resource ≡ true)
            × (req : Request) × (to_admission_request s a ≡ ok req)
            × ((handle h w now req).response.allowed ≡ false)
            × ((handle h w now req).response.message ≡ message)
          → (admit s h w now a).refusal ≡ some message
      backward (r, req, q, denied, text) =
          ap (λ x. x.refusal) (admit-request w now a req r q)
          ∙ (refused_request w now a req message).1 (denied, text)
