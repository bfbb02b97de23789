-- ===== src/Samples/Hashes.antt =====
-- The theorems on user hashes at short lists.
use kausality.Base.{false, ◌++◌, String, ℕ, true, [], ◌∷◌, ◌≡◌, ◌⊎◌}
use kausality.Base.Text.{join_commas}
use kausality.Controller.Hashes.{parse_hashes, contains_hash, add_hash}
use kausality.Controller.Username.{hash_username, hash_username-IsClean}
use kausality.Controller.Capped.{LastFive, add_hash-parse, parse-join}

abbrev digest : String → ℕ
digest s = 123456789

abbrev hash : String
unfolding hash_username
hash = hash_username digest "alice"

add_hash-parse_example :
    let recorded = parse_hashes (add_hash "a, b,,c ,d,e" hash) in
    let hashes = parse_hashes "a, b,,c ,d,e" in
    (contains_hash recorded hash ≡ true)
    × (((contains_hash hashes hash ≡ true) × (recorded ≡ hashes))
        ⊎ ((contains_hash hashes hash ≡ false) × LastFive (hashes ++ hash ∷ []) recorded))
unfolding hash
add_hash-parse_example = add_hash-parse "a, b,,c ,d,e" hash (hash_username-IsClean digest "alice").1

parse-join_example : parse_hashes (join_commas (hash ∷ hash ∷ [])) ≡ (hash ∷ hash ∷ [])
unfolding hash
parse-join_example =
    let clean = (hash_username-IsClean digest "alice").1 in
    parse-join (hash ∷ hash ∷ []) (clean, (clean, tt))
