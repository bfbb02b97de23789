-- ===== src/Plugin/Document.antt =====
-- cmd/example-generic-control-plane/pkg/admission/kausality.go: JSON objects and patches on them.
-- An error drops the object that was being patched, so that its state in between is not kept.
use Prim.Native.String.{◌++◌}
use kausality.Base.{
  String, ◌||◌, ◌==◌, if◌then◌else◌, List, [], ◌∷◌, Option, none, some, Result, ok, err, ◌>>=◌,
  wrap,
}
use kausality.Plugin.Pointer.{parse_path}

-- A JSON value; one that is not an object is kept as its text.
mutual
  pub data Json : Type 0 where
    object : Fields → Json
    value : String → Json

  pub data Fields : Type 0 where
    empty : Fields
    field : String → Json → Fields → Fields

unfoldable pub field_of : String → Fields → Option Json
field_of key empty = none
field_of key (field k j fields) = if key == k then some j else field_of key fields

unfoldable pub set_field : String → Json → Fields → Fields
set_field key new empty = field key new empty
set_field key new (field k j fields) =
    let later = set_field key new fields in
    if key == k then field key new fields else field k j later

unfoldable pub remove_field : String → Fields → Fields
remove_field key empty = empty
remove_field key (field k j fields) =
    let later = remove_field key fields in if key == k then later else field k j later

pub record JsonPatch : Type 0 where
  pub operation : String
  pub path : String
  pub new_value : Json

-- The operation on the last key.
unfoldable pub apply_last : JsonPatch → String → Fields → Result Fields
unfolding set_field remove_field
apply_last patch key fields =
    if (patch.operation == "add") || (patch.operation == "replace")
    then ok (set_field key patch.new_value fields)
    else if patch.operation == "remove"
    then ok (remove_field key fields)
    else err ("unsupported operation: " ++ patch.operation)

-- The walk to the last key.
unfoldable pub apply_at : JsonPatch → String → List String → Fields → Result Fields
unfolding apply_last field_of set_field
apply_at patch key [] fields = apply_last patch key fields
apply_at patch key (next ∷ more) fields =
    let set = λ (inner : Fields). ok (set_field key (object inner) fields) in
    elim (field_of key fields) [
      | some (object inner) ↦ apply_at patch next more inner >>= set
      | some (value text) ↦ err ("path component " ++ (key ++ " is not an object"))
      | none ↦
          let made = apply_at patch next more empty in
          if patch.operation == "add" then made >>= set else err ("path not found: " ++ key)
    ]

unfoldable pub apply_patch : Fields → JsonPatch → Result Fields
unfolding parse_path apply_at
apply_patch fields patch = elim (parse_path patch.path) [
  | [] ↦ err "empty path"
  | key ∷ more ↦ apply_at patch key more fields
]

-- The loop of `applyPatches`; `show` writes a patch into the message.
unfoldable pub apply_all : (JsonPatch → String) → List JsonPatch → Fields → Result Fields
unfolding apply_patch
apply_all show [] fields = ok fields
apply_all show (patch ∷ patches) fields =
    wrap ("failed to apply patch " ++ (show patch ++ ": ")) (apply_patch fields patch)
    >>= λ patched. apply_all show patches patched
