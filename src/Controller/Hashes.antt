-- ===== src/Controller/Hashes.antt =====
-- pkg/controller/tracker.go and pkg/admission/handler.go: lists of user hashes in an annotation.
use kausality.Base.{
  String, ltb, ◌-◌, Bool, true, false, ◌==◌, if◌then◌else◌, List, [], ◌∷◌, ◌++◌, length, drop, keep,
  not, map, Option, Dict, insert, option_or,
}
use kausality.Base.Text.{split_commas, trim_space, join_commas}
use kausality.Annotations.{updaters_annotation, max_hashes}
use kausality.Kube.{entry}

unfoldable pub user_identifier : String → String → String
user_identifier username uid = if username == "" then uid else username

-- The parts, trimmed, without the empty ones.
unfoldable pub parse_hashes : String → List String
parse_hashes s = if s == "" then [] else keep (λ p. not (p == "")) (map trim_space (split_commas s))

unfoldable pub contains_hash : List String → String → Bool
contains_hash [] hash = false
contains_hash (h ∷ hashes) hash = if h == hash then true else contains_hash hashes hash

-- `a` is put into a set first.
unfoldable pub intersect : List String → List String → List String
unfolding contains_hash
intersect a b = keep (λ h. contains_hash a h) b

-- `hashes = append(hashes, hash)`, then at most the last `MaxHashes` entries.
unfoldable pub append_capped : List String → String → List String
append_capped hashes hash =
    let longer = hashes ++ hash ∷ [] in
    if ltb max_hashes (length longer) then drop (length longer - max_hashes) longer else longer

unfoldable pub record_hash : List String → String → List String
unfolding contains_hash append_capped
record_hash hashes hash = if contains_hash hashes hash then hashes else append_capped hashes hash

-- `addHash` of the admission handler leaves the text alone if the hash is in it.
unfoldable pub add_hash : String → String → String
unfolding parse_hashes contains_hash append_capped
add_hash existing hash =
    let hashes = parse_hashes existing in
    if contains_hash hashes hash then existing else join_commas (append_capped hashes hash)

-- `hash_username` is `HashUsername`, below an argument.
unfoldable pub record_updater : (String → String) → Option (Dict String) → String → Dict String
unfolding parse_hashes record_hash
record_updater hash_username annotations username =
    let hashes = parse_hashes (entry annotations updaters_annotation) in
    insert updaters_annotation (join_commas (record_hash hashes (hash_username username)))
      (option_or annotations [])
