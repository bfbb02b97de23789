-- ===== src/Callback/Dedup.antt =====
-- pkg/callback/tracker.go: an identifier is new once in its time to live, whatever else happens.
use kausality.Base.{
  String, ℕ, ◌+◌, ◌<◌, ◌≤◌, ltb, Bool, true, false, not, ◌==◌, ◌&&◌, if◌then◌else◌, [], ◌∷◌, Option,
  some, Dict, lookup, delete, lookup-insert, lookup-insert_self, lookup-delete, ◌≡◌, ◌≢◌, refl, sym,
  ap, ◌∙◌, arith, inl, inr, Bool-cases, Option-cases, eq_iff, lt→ltb, ltb→lt, ltb-false→le,
  ne→eq-false,
}
use mathlib.Core.Bool.{false≢true}
use mathlib.Core.Option.{some-injective}
use kausality.Callback.Tracker.{
  Tracker, is_before, is_tracked, track, remove, cleanup_from, cleanup,
}

if_false : (b x y : Bool) → y ≡ (if b && false then x else y)
if_false true x y = refl
if_false false x y = refl

tracked_if :
    (b : Bool) (later expiry : ℕ) (o : Option ℕ)
    → is_before later (if b then some expiry else o)
      ≡ (if b && true then ltb later expiry else is_before later o)
unfolding is_before
tracked_if true later expiry o = refl
tracked_if false later expiry o = refl

-- `Track` answers whether the identifier was not tracked. Afterwards a new one is tracked up to the
-- end of its time to live, and nothing else has changed.
pub track_lem :
    (now later : ℕ) (id other : String) (t : Tracker)
    → ((track now id t).1 ≡ not (is_tracked now id t))
      × (is_tracked later other (track now id t).0 ≡ (
          if (id == other) && not (is_tracked now id t)
          then ltb later (now + t.ttl)
          else is_tracked later other t))
unfolding track is_tracked
track_lem now later id other t = elim (Bool-cases (is_before now (lookup id t.ids))) [
  | inl e ↦ rw e (refl, if_false (id == other) _ _)
  | inr e ↦
      rw (e, lookup-insert id other (now + t.ttl) t.ids)
        (refl, tracked_if (id == other) later (now + t.ttl) (lookup other t.ids))
]

-- What can happen to a tracker before the time `until` without a removal of `id`.
pub data Step (until : ℕ) (id : String) : Tracker → Tracker → Type 0 where
  tracked :
      {t : Tracker}
      → (now : ℕ) → (other : String) → now < until
      → Step until id t (track now other t).0
  removed : {t : Tracker} → (other : String) → other ≢ id → Step until id t (remove other t)
  cleaned : {t : Tracker} → (now : ℕ) → now < until → Step until id t (cleanup now t).0

pub data Run (until : ℕ) (id : String) : Tracker → Tracker → Type 0 where
  done : {t : Tracker} → Run until id t t
  step : {t u v : Tracker} → Step until id t u → Run until id u v → Run until id t v

le→ltb-false : (a b : ℕ) → b ≤ a → ltb a b ≡ false
le→ltb-false a b h = ground (arith, ltb→lt a b)

-- Deleting an expired entry does not show.
delete-is_before :
    (later now expiry : ℕ) (key other : String) (ids : Dict ℕ)
    → lookup key ids ≡ some expiry
    → ltb now expiry ≡ false
    → now ≤ later
    → is_before later (lookup other (delete key ids)) ≡ is_before later (lookup other ids)
unfolding is_before
delete-is_before later now expiry key other ids found expired after =
    elim (Bool-cases (key == other)) [
      | inr e ↦ rw (lookup-delete key other ids, e) refl
      | inl e ↦
          let same : lookup other ids ≡ some expiry =
            ap (λ k. lookup k ids) (sym ((eq_iff key other).0 e)) ∙ found in
          rw (lookup-delete key other ids, e, same)
            (sym
              (le→ltb-false later expiry (omega (arith, ltb-false→le now expiry expired, after))))
    ]

cleanup_from-is_before :
    (later now : ℕ) (other : String) (entries ids : Dict ℕ)
    → now ≤ later
    → is_before later (lookup other (cleanup_from now entries ids).0)
      ≡ is_before later (lookup other ids)
unfolding cleanup_from
cleanup_from-is_before later now other [] ids after = refl
cleanup_from-is_before later now other (e ∷ entries) ids after =
    elim (Option-cases (lookup e.0 ids)) [
      | inl none_there ↦
          rw (none_there, cleanup_from) (cleanup_from-is_before later now other entries ids after)
      | inr (expiry, found) ↦ elim (Bool-cases (ltb now expiry)) [
        | inl fresh ↦
            rw (found, fresh, cleanup_from)
              (cleanup_from-is_before later now other entries ids after)
        | inr expired ↦
            rw (found, expired, cleanup_from)
              (cleanup_from-is_before later now other entries (delete e.0 ids) after
                ∙ delete-is_before later now expiry e.0 other ids found expired after)
      ]
    ]

-- `Cleanup` does not show at its time or later.
pub is_tracked-cleanup :
    (now later : ℕ) (other : String) (t : Tracker)
    → now ≤ later
    → is_tracked later other (cleanup now t).0 ≡ is_tracked later other t
unfolding is_tracked cleanup
is_tracked-cleanup now later other t after =
    cleanup_from-is_before later now other t.ids t.ids after

cleanup_from-keeps :
    (now expiry : ℕ) (id : String) (entries ids : Dict ℕ)
    → lookup id ids ≡ some expiry
    → now < expiry
    → lookup id (cleanup_from now entries ids).0 ≡ some expiry
unfolding cleanup_from
cleanup_from-keeps now expiry id [] ids h fresh = h
cleanup_from-keeps now expiry id (e ∷ entries) ids h fresh = elim (Option-cases (lookup e.0 ids)) [
  | inl none_there ↦
      rw (none_there, cleanup_from) (cleanup_from-keeps now expiry id entries ids h fresh)
  | inr (other, found) ↦ elim (Bool-cases (ltb now other)) [
    | inl later ↦
        rw (found, later, cleanup_from) (cleanup_from-keeps now expiry id entries ids h fresh)
    | inr expired ↦
        let differs : e.0 ≢ id = λ q.
          let same : other ≡ expiry =
            some-injective _ _ (sym found ∙ ap (λ k. lookup k ids) q ∙ h) in
          omega (arith, ltb-false→le now other expired, same, fresh) in
        rw (found, expired, cleanup_from)
          (cleanup_from-keeps now expiry id entries (delete e.0 ids)
            (lookup-delete e.0 id ids ∙ rw (ne→eq-false e.0 id differs) h) fresh)
  ]
]

Step-keeps :
    (until : ℕ) (id : String) (t u : Tracker)
    → Step until id t u
    → lookup id t.ids ≡ some until
    → lookup id u.ids ≡ some until
unfolding track remove cleanup is_before
Step-keeps until id t u (tracked now other before) h =
    elim (Bool-cases (is_before now (lookup other t.ids))) [
      | inl e ↦ rw e h
      | inr e ↦
          let differs : other ≢ id = λ q. false≢true (
            sym e
            ∙ ap (λ k. is_before now (lookup k t.ids)) q
            ∙ ap (is_before now) h
            ∙ lt→ltb now until before) in
          rw e (lookup-insert other id (now + t.ttl) t.ids ∙ rw (ne→eq-false other id differs) h)
    ]
Step-keeps until id t u (removed other differs) h =
    lookup-delete other id t.ids ∙ rw (ne→eq-false other id differs) h
Step-keeps until id t u (cleaned now before) h =
    cleanup_from-keeps now until id t.ids t.ids h before

Run-keeps :
    (until : ℕ) (id : String) (t u : Tracker)
    → Run until id t u
    → lookup id t.ids ≡ some until
    → lookup id u.ids ≡ some until
Run-keeps until id t u done h = h
Run-keeps until id t u (step s r) h = Run-keeps until id _ u r (Step-keeps until id t _ s h)

new-inserted :
    (now : ℕ) (id : String) (t : Tracker)
    → (track now id t).1 ≡ true
    → lookup id (track now id t).0.ids ≡ some (now + t.ttl)
unfolding track
new-inserted now id t new = elim (Bool-cases (is_before now (lookup id t.ids))) [
  | inl e ↦ absurd (false≢true (rw e at new))
  | inr e ↦ rw e (lookup-insert_self id (now + t.ttl) t.ids)
]

-- An identifier that `Track` found new is not new again before its time to live has passed,
-- whatever identifiers are tracked, cleaned up and removed in between, if it is not removed itself.
pub track-once :
    (now later : ℕ) (id : String) (t u : Tracker)
    → (track now id t).1 ≡ true
    → Run (now + t.ttl) id (track now id t).0 u
    → later < now + t.ttl
    → (track later id u).1 ≡ false
unfolding is_tracked is_before
track-once now later id t u new run before =
    let held = Run-keeps (now + t.ttl) id (track now id t).0 u run (new-inserted now id t new) in
    let known : is_tracked later id u ≡ true =
      ap (is_before later) held ∙ lt→ltb later (now + t.ttl) before in
    (track_lem later later id id u).0 ∙ ap not known
