-- ===== src/Callback/Tracker.antt =====
-- pkg/callback/tracker.go: the identifiers that were sent lately. `now` is the clock's reading.
use kausality.Base.{
  String, ℕ, ◌+◌, suc, ltb, Bool, true, false, if◌then◌else◌, [], ◌∷◌, length, Option, none, some,
  Dict, lookup, insert, delete,
}

-- `ids` has the time at which an identifier expires.
pub record Tracker : Type 0 where
  pub ids : Dict ℕ
  pub ttl : ℕ

-- `now.Before(expiry)`, false for an identifier that is not there.
unfoldable pub is_before : ℕ → Option ℕ → Bool
is_before now none = false
is_before now (some expiry) = ltb now expiry

unfoldable pub is_tracked : ℕ → String → Tracker → Bool
unfolding is_before lookup
is_tracked now id t = is_before now (lookup id t.ids)

-- The answer says that the identifier was new.
unfoldable pub track : ℕ → String → Tracker → Tracker × Bool
unfolding is_before lookup insert
track now id t =
    if is_before now (lookup id t.ids)
    then (t, false)
    else (record t { ids = insert id (now + t.ttl) t.ids }, true)

unfoldable pub remove : String → Tracker → Tracker
unfolding delete
remove id t = record t { ids = delete id t.ids }

-- The loop of `Cleanup`: a key of the map that has expired is deleted and counted.
unfoldable pub cleanup_from : ℕ → Dict ℕ → Dict ℕ → Dict ℕ × ℕ
cleanup_from now [] ids = (ids, 0)
cleanup_from now (e ∷ entries) ids =
    let kept = cleanup_from now entries ids in
    let (rest, count) = cleanup_from now entries (delete e.0 ids) in
    elim (lookup e.0 ids) [
      | none ↦ kept
      | some expiry ↦ if ltb now expiry then kept else (rest, suc count)
    ]

unfoldable pub cleanup : ℕ → Tracker → Tracker × ℕ
unfolding cleanup_from
cleanup now t = let (ids, count) = cleanup_from now t.ids t.ids in (record t { ids = ids }, count)

unfoldable pub size : Tracker → ℕ
size t = length t.ids
