-- ===== src/Plugin/Admit.antt =====
-- cmd/example-generic-control-plane/pkg/admission/kausality.go: the plugin, and of
-- pkg/admission/handler.go the patches that a response asks for. The scheme's encoding of objects and
-- the library that compares two JSON texts are parameters.
use Prim.Native.String.{[], ◌∷◌, ◌++◌}
use kausality.Base.{
  String, ℕ, Bool, true, false, not, ◌&&◌, ◌==◌, if◌then◌else◌, List, [], ◌∷◌, is_empty, Option,
  none, some, Result, ok, err, ◌>>=◌, wrap,
}
use kausality.Annotations.{trace_annotation, updaters_annotation}
use kausality.Admission.Requests.{
  Operation, create, update, delete, connect, Request, Patch, no_patch, rewritten,
  annotations_added, entries_set, Effect, Handler,
}
use kausality.Admission.Dispatch.{handle}
use kausality.Plugin.Pointer.{is_slash}
use kausality.Plugin.Document.{Json, object, value, Fields, empty, field, JsonPatch, apply_all}

-- The attributes of a request inside the API server.
pub record Attributes (Obj : Type 0) : Type 0 where
  pub sub_resource : String
  pub operation : Operation
  pub namespace : String
  pub username : String
  pub user_uid : String
  pub object : Option Obj
  pub old_object : Option Obj

-- encoding/json on the server's objects and on maps, the patches between two JSON texts, and the text
-- of a patch. Decoding into an object may change it and still fail.
pub record Scheme : Type 1 where
  pub Obj : Type 0
  pub encode : Obj → Result String
  pub read_map : String → Result Fields
  pub write_map : Fields → Result String
  pub decode_into : Obj → String → Option String × Obj
  pub diff : String → String → List JsonPatch
  pub show : JsonPatch → String

unfoldable pub handles : Operation → Bool
handles create = true
handles update = true
handles delete = true
handles connect = false

-- `strings.ReplaceAll(s, "/", "~1")`
unfoldable pub replace_slashes : String → String
replace_slashes [] = []
replace_slashes (c ∷ s) =
    if is_slash c then "~" ∷ "1" ∷ replace_slashes s else c ∷ replace_slashes s

abbrev pub annotation_path : String → String
unfolding replace_slashes
annotation_path key = "/metadata/annotations/" ++ replace_slashes key

abbrev pub patch_of : String → String → Json → JsonPatch
patch_of operation path new_value = record {
  operation = operation;
  path = path;
  new_value = new_value;
}

-- The patches of a response to a request for the object with the given text. The value of the one
-- that adds all annotations is a map from strings to strings, here the JSON object that it encodes to.
unfoldable pub patches_of : (String → String → List JsonPatch) → String → Patch → List JsonPatch
patches_of diff raw no_patch = []
patches_of diff raw (rewritten text) = diff raw text
patches_of diff raw (annotations_added trace updaters) =
    patch_of "add" "/metadata/annotations" (
      object
        (field trace_annotation (value trace) (field updaters_annotation (value updaters) empty)))
    ∷ []
patches_of diff raw (entries_set trace_op trace updaters_op updaters) =
    patch_of trace_op (annotation_path trace_annotation) (value trace)
    ∷ patch_of updaters_op (annotation_path updaters_annotation) (value updaters)
    ∷ []

-- What `Admit` leaves: its error, the object of the attributes, the cluster, and the started work.
pub record AdmitResult (Obj World : Type 0) : Type 0 where
  pub refusal : Option String
  pub object : Option Obj
  pub world : World
  pub effects : List Effect

module _ (s : Scheme) where
  open s use {Obj, encode, read_map, write_map, decode_into, diff, show}

  unfoldable pub raw_of : String → Option Obj → Result String
  raw_of what none = ok ""
  raw_of what (some o) = wrap ("failed to marshal " ++ (what ++ ": ")) (encode o)

  unfoldable pub to_admission_request : Attributes Obj → Result Request
  unfolding raw_of
  to_admission_request a = raw_of "object" a.object >>= λ raw.
      raw_of "old object" a.old_object >>= λ old_raw. ok (record {
        operation = a.operation;
        sub_resource = a.sub_resource;
        namespace = a.namespace;
        uid = "embedded-apiserver";
        username = a.username;
        user_uid = a.user_uid;
        object = raw;
        old_object = old_raw;
      })

  -- `applyPatches`: its error, and the object.
  unfoldable pub apply_patches : Obj → List JsonPatch → Option String × Obj
  unfolding apply_all
  apply_patches o patches =
      let patched = wrap "failed to marshal object: " (encode o) >>= λ read.
      wrap "failed to unmarshal object: " (read_map read) >>= λ fields.
      apply_all show patches fields >>= λ changed.
      wrap "failed to marshal patched object: " (write_map changed) in
      elim patched [ err e ↦ (some e, o) | ok text ↦ decode_into o text ]

  -- The object behind the handler's response; an error of the patches is only logged.
  unfoldable pub patched_object : List JsonPatch → Option Obj → Option Obj
  unfolding apply_patches
  patched_object patches none = none
  patched_object patches (some o) =
      let (failure, changed) = apply_patches o patches in
      some (if is_empty patches then o else changed)

  module _ (h : Handler) where
    unfoldable pub admit_request :
        h.client.World → ℕ → Attributes Obj → Request → AdmitResult Obj h.client.World
    unfolding handle patches_of patched_object
    admit_request w now a req =
        let outcome = handle h w now req in
        let response = outcome.response in
        record {
          refusal = if not response.allowed then some response.message else none;
          object =
              if not response.allowed
              then a.object
              else patched_object (patches_of diff req.object response.patch) a.object;
          world = outcome.world;
          effects = outcome.effects;
        }

    unfoldable pub admit : h.client.World → ℕ → Attributes Obj → AdmitResult Obj h.client.World
    unfolding to_admission_request admit_request
    admit w now a =
        let skipped : AdmitResult Obj h.client.World = record {
          refusal = none;
          object = a.object;
          world = w;
          effects = [];
        } in
        if not (a.sub_resource == "") && not (a.sub_resource == "status")
        then skipped
        else elim (to_admission_request a) [ err e ↦ skipped | ok req ↦ admit_request w now a req ]
