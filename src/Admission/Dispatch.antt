-- ===== src/Admission/Dispatch.antt =====
-- pkg/admission/handler.go: `Handle`, up to the mutations that are traced, and `handleStatusUpdate`.
use kausality.Base.{
  String, ℕ, Bool, false, not, ◌==◌, if◌then◌else◌, List, [], ◌∷◌, none, some, option_or, Result,
  ok, err,
}
use kausality.Kube.{Object, OwnerReference}
use kausality.Controller.Hashes.{user_identifier}
use kausality.Drift.State.{ParentState, unset, initializing, initialized, deleting, phase_text}
use kausality.Drift.Lifecycle.{detect_phase}
use kausality.Drift.Resolver.{extract_parent_state}
use kausality.Admission.Annotations.{
  compute_annotations_for_user, compute_annotations_for_status_update,
}
use kausality.Admission.Requests.{
  create, update, delete, connect, Request, Response, rewritten, Effect, phase_recorded,
  controller_recorded, Handler, allowed_with, refused_with, error_text, parse_object,
  has_spec_changed,
}
use kausality.Admission.Handling.{Outcome, unchanged, handle_object}

module _ (h : Handler) where
  open h use {client, objects, hash_username, detection_order}

  -- The answer to an update that leaves the spec alone, by what can be encoded and decoded.
  unfoldable pub written_response : Result String → Response
  written_response (err e) = allowed_with "no spec change"
  written_response (ok modified) = record (allowed_with "") { patch = rewritten modified }

  unfoldable pub merged_response : Request → Result Object → Result Object → Response
  unfolding compute_annotations_for_user written_response
  merged_response req (err e) new = allowed_with "no spec change"
  merged_response req (ok old) (err e) = allowed_with "no spec change"
  merged_response req (ok old) (ok new) = written_response (
      objects.write req.object (
        compute_annotations_for_user (option_or old.annotations []) (option_or new.annotations [])
          false "" ""))

  unfoldable pub preserve_response : Request → Response
  unfolding merged_response
  preserve_response req =
      merged_response req (objects.decode req.old_object) (objects.decode req.object)

  -- The state of an object as a parent, as `extractParentStateFromObject` reads it: without the
  -- reference and the controllers.
  unfoldable pub own_state : Object → ParentState
  unfolding extract_parent_state
  own_state o =
      let owner : OwnerReference = record {
        api_version = "";
        kind = "";
        name = "";
        controller = none;
      } in
      record (extract_parent_state o owner) {
        ref = record { api_version = ""; kind = ""; namespace = ""; name = "" };
        controllers = [];
      }

  unfoldable pub handle_status_update : client.World → Request → Outcome client.World
  unfolding user_identifier own_state detect_phase phase_text compute_annotations_for_status_update
      parse_object
  handle_status_update w req =
      let user_id = user_identifier req.username req.user_uid in
      let merged = λ (o old new : Object).
        compute_annotations_for_status_update (option_or old.annotations [])
          (option_or new.annotations []) (hash_username user_id) o.generation in
      let response = λ (o : Object). elim (objects.decode req.old_object) as (λ _. Response) [
        | err e ↦ allowed_with "status update recorded"
        | ok old ↦ elim (objects.decode req.object) [
          | err e ↦ allowed_with "status update recorded"
          | ok new ↦ elim (objects.write req.object (merged o old new)) [
            | err e ↦ allowed_with "status update recorded"
            | ok modified ↦ record (allowed_with "") { patch = rewritten modified }
          ]
        ]
      ] in
      let phase = λ (o : Object). detect_phase detection_order (some (own_state o)) in
      let recorded = λ (o : Object). elim (phase o) as (λ _. List Effect) [
        | deleting ↦ []
        | unset ↦ phase_recorded o (phase_text unset) ∷ []
        | initializing ↦ phase_recorded o (phase_text initializing) ∷ []
        | initialized ↦ phase_recorded o (phase_text initialized) ∷ []
      ] in
      let handled = elim (parse_object objects req) as (λ _. Outcome client.World) [
        | err e ↦ unchanged w (allowed_with "failed to parse object")
        | ok o ↦ record {
          response = response o;
          world = w;
          effects = controller_recorded o user_id ∷ recorded o;
        }
      ] in
      elim req.operation [
        | update ↦ handled
        | create ↦ unchanged w (allowed_with "status subresource: only UPDATE is relevant")
        | delete ↦ unchanged w (allowed_with "status subresource: only UPDATE is relevant")
        | connect ↦ unchanged w (allowed_with "status subresource: only UPDATE is relevant")
      ]

  -- `Handle` of a mutation that is traced.
  unfoldable pub handle_mutation : client.World → ℕ → Request → Outcome client.World
  unfolding parse_object handle_object
  handle_mutation w now req = elim (parse_object objects req) [
    | err e ↦ unchanged w (refused_with (error_text "failed to parse object: " e))
    | ok o ↦ handle_object h w now req o
  ]

  -- On the answer of `hasSpecChanged`.
  unfoldable pub handle_changed : client.World → ℕ → Request → Result Bool → Outcome client.World
  unfolding preserve_response handle_mutation
  handle_changed w now req (err e) =
      unchanged w (refused_with (error_text "failed to check spec change: " e))
  handle_changed w now req (ok changed) =
      if not changed then unchanged w (preserve_response req) else handle_mutation w now req

  unfoldable pub handle_update : client.World → ℕ → Request → Outcome client.World
  unfolding has_spec_changed handle_changed
  handle_update w now req = handle_changed w now req (has_spec_changed objects req)

  unfoldable pub handle : client.World → ℕ → Request → Outcome client.World
  unfolding handle_status_update handle_update handle_mutation
  handle w now req =
      let traced = elim req.operation as (λ _. Outcome client.World) [
        | update ↦ handle_update w now req
        | create ↦ handle_mutation w now req
        | delete ↦ handle_mutation w now req
        | connect ↦ unchanged w (allowed_with "operation not relevant for tracing")
      ] in
      elim req.operation as (λ _. Outcome client.World) [
        | connect ↦ traced
        | create ↦ if req.sub_resource == "status" then handle_status_update w req else traced
        | update ↦ if req.sub_resource == "status" then handle_status_update w req else traced
        | delete ↦ if req.sub_resource == "status" then handle_status_update w req else traced
      ]
