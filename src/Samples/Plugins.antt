-- ===== src/Samples/Plugins.antt =====
-- The theorems on the admission plugin, and the paths at which `parsePath` is not the inverse.
use kausality.Base.{
  String, true, false, ◌==◌, if◌then◌else◌, List, [], ◌∷◌, none, some, ok, ◌≡◌, ◌↔◌, refl,
}
use mathlib.Core.Bool.{false≢true}
use kausality.Annotations.{trace_annotation, updaters_annotation}
use kausality.Kube.{Object}
use kausality.Admission.Requests.{update, Request}
use kausality.Admission.Handling.{patch_for}
use kausality.Admission.Dispatch.{handle}
use kausality.Plugin.Pointer.{parse_path}
use kausality.Plugin.Escapes.{is_ascii-IsAscii, pointer_of, parse_path-pointer_of}
use kausality.Plugin.Document.{
  object, value, Fields, empty, field, field_of, JsonPatch, apply_patch, apply_all,
}
use kausality.Plugin.Patched.{at, Diverges, apply_patch-at}
use kausality.Plugin.Admit.{Attributes, Scheme, to_admission_request, admit, patches_of, patch_of}
use kausality.Plugin.Admitted.{admit_iff, is_relevant}
use kausality.Plugin.Annotated.{patch_for-annotates, updaters_after}
use kausality.Samples.Fixtures.{steady, child_object}
use kausality.Samples.Requests.{webhook, request}

-- An empty last key is lost, and the bytes of a character outside ASCII become characters, twice.
test-parse_path :
    (parse_path "/a//b~1c~0d" ≡ "a" ∷ "" ∷ "b/c~d" ∷ [])
    × (parse_path "/a/" ≡ "a" ∷ [])
    × (parse_path "/é" ≡ "Ã\u{83}Â©" ∷ [])
unfolding parse_path
test-parse_path = (refl, refl, refl)

parse_path-pointer_of_example :
    parse_path (pointer_of ("metadata" ∷ "annotations" ∷ "kausality.io/trace" ∷ []))
    ≡ "metadata" ∷ "annotations" ∷ "kausality.io/trace" ∷ []
parse_path-pointer_of_example =
    parse_path-pointer_of "metadata" ("annotations" ∷ "kausality.io/trace" ∷ [])
      (
        is_ascii-IsAscii "metadata" refl,
        (is_ascii-IsAscii "annotations" refl, (is_ascii-IsAscii "kausality.io/trace" refl, tt)),
      )
      (λ e. cc)

abbrev annotations : Fields
annotations = field "team" (value "a") empty

abbrev metadata : Fields
metadata = field "annotations" (object annotations) empty

abbrev document : Fields
document = field "kind" (value "Pod") (field "metadata" (object metadata) empty)

abbrev removal : JsonPatch
removal = patch_of "remove" "/metadata/annotations/team" (value "null")

abbrev bare : Fields
bare =
    field "kind" (value "Pod")
      (field "metadata" (object (field "annotations" (object empty) empty)) empty)

apply_patch-at_example :
    (at "metadata" ("annotations" ∷ "team" ∷ []) bare ≡ none)
    × ((other : String) (rest : List String)
        → Diverges "metadata" ("annotations" ∷ "team" ∷ []) other rest
        → at other rest bare ≡ at other rest document)
unfolding apply_patch pointer_of field_of
apply_patch-at_example =
    apply_patch-at removal "metadata" ("annotations" ∷ "team" ∷ []) document bare
      (
        is_ascii-IsAscii "metadata" refl,
        (is_ascii-IsAscii "annotations" refl, (is_ascii-IsAscii "team" refl, tt)),
      )
      (λ e. cc) refl refl

-- The object's text is always "new", and the patched object the bare one.
abbrev scheme : Scheme
scheme = record {
  Obj = Fields;
  encode = λ o. ok "new";
  read_map = λ t. ok document;
  write_map = λ f. ok "patched";
  decode_into = λ o t. (none, bare);
  diff = λ s t. [];
  show = λ p. p.path;
}

abbrev attributes : Attributes Fields
attributes = record {
  sub_resource = "";
  operation = update;
  namespace = "shop";
  username = "c2";
  user_uid = "";
  object = some document;
  old_object = some document;
}

admit_iff_example : ((admit scheme webhook steady 7 attributes).refusal ≡ some "refused") ↔ (
    (is_relevant "" ≡ true)
    × (req : Request) × (to_admission_request scheme attributes ≡ ok req)
    × ((handle webhook steady 7 req).response.allowed ≡ false)
    × ((handle webhook steady 7 req).response.message ≡ "refused"))
admit_iff_example = admit_iff scheme webhook steady 7 attributes "refused"

abbrev annotated_child : Object
annotated_child = record child_object { annotations = some (("team", "a") ∷ []) }

patch_for-annotates_example :
    (patched : Fields) × (apply_all
        (λ p. p.path)
        (patches_of (λ s t. []) "new" (patch_for request annotated_child "[]" "abc"))
        document
      ≡ ok patched)
    × ((key : String)
        → at "metadata" ("annotations" ∷ key ∷ []) patched ≡ (
            if updaters_annotation == key
            then some (value (updaters_after request annotated_child "abc"))
            else if trace_annotation == key
            then some (value "[]")
            else at "metadata" ("annotations" ∷ key ∷ []) document))
unfolding field_of
patch_for-annotates_example =
    patch_for-annotates (λ s t. []) (λ p. p.path) request annotated_child "new" "[]" "abc" document
      metadata refl (λ e. (annotations, refl)) (λ e key. absurd (false≢true e))
