-- ===== src/Controller/Scheduled.antt =====
-- pkg/controller/tracker.go: recordings and flushes of several requests, in any order. Each step is
-- one section under the tracker's lock.
use kausality.Base.{
  String, ℕ, ◌+◌, ◌≤◌, Bool, true, false, not, ◌==◌, if◌then◌else◌, List, [], ◌∷◌, ◌++◌, is_some,
  Dict, lookup, insert, delete, lookup-insert, lookup-delete, eq_iff, ◌≡◌, refl, sym, ap, ◌∙◌,
  Bool-cases, inl, inr, arith,
}
use kausality.Kube.{Object}
use kausality.Controller.Recording.{begin_controller, begin_phase}
use kausality.Controller.Pending.{
  object_key, phase_key, is_recorded, is_phase_kept, Pending, enqueue_controller, take_controller,
  enqueue_phase, take_phase,
}

-- The pending updates, and the keys whose flush has been started and has not taken its update yet.
pub record Schedule : Type 0 where
  pub pending : Pending
  pub started : List String

-- The started flushes behind a call, by the call's answer.
abbrev pub start_if : Bool → String → List String → List String
start_if start key started = if start then key ∷ started else started

pub data Step : Schedule → Schedule → Type 0 where
  controller_recorded :
      (s : Schedule) (go_name hash : String) (o : Object)
      → Step s (record {
        pending = (begin_controller go_name hash o s.pending).0;
        started =
            start_if (begin_controller go_name hash o s.pending).1 (object_key go_name o) s.started;
      })
  phase_recorded :
      (s : Schedule) (go_name phase : String) (o : Object)
      → Step s (record {
        pending = (begin_phase go_name phase o s.pending).0;
        started =
            start_if (begin_phase go_name phase o s.pending).1 (phase_key go_name o) s.started;
      })
  controller_taken :
      (s : Schedule) (before after : List String) (key : String)
      → s.started ≡ before ++ key ∷ after
      → Step s (record { pending = (take_controller key s.pending).1; started = before ++ after })
  phase_taken :
      (s : Schedule) (before after : List String) (key : String)
      → s.started ≡ before ++ key ∷ after
      → Step s (record { pending = (take_phase key s.pending).1; started = before ++ after })

-- `NewTracker`
abbrev pub idle : Schedule
idle = record { pending = record { values = []; generations = [] }; started = [] }

pub data Reach : Schedule → Type 0 where
  here : Reach idle
  next : {s t : Schedule} → Reach s → Step s t → Reach t

abbrev pub one_if : Bool → ℕ
one_if true = 1
one_if false = 0

one_if-le : (b : Bool) → one_if b ≤ 1
one_if-le true = omega arith
one_if-le false = omega arith

abbrev pub count : String → List String → ℕ
count key [] = 0
count key (x ∷ xs) = one_if (x == key) + count key xs

count-middle :
    (key x : String) (xs ys : List String)
    → count key (xs ++ x ∷ ys) ≡ one_if (x == key) + count key (xs ++ ys)
count-middle key x [] ys = refl
count-middle key x (y ∷ xs) ys = omega (arith, count-middle key x xs ys)

abbrev Covers : List String → Dict String → Type 0
Covers started values = (k : String) → count k started ≡ one_if (is_some (lookup k values))

enqueue-Covers :
    (key value : String) (started : List String) (values : Dict String)
    → Covers started values
    → Covers (start_if (not (is_some (lookup key values))) key started) (insert key value values)
enqueue-Covers key value started values h k = elim (Bool-cases (key == k)) [
  | inr other ↦ elim (Bool-cases (is_some (lookup key values))) [
    | inl known ↦ rw (lookup-insert key k value values, known, other) (h k)
    | inr new ↦
        let rest = h k in rw (lookup-insert key k value values, new, other) (omega (arith, rest))
  ]
  | inl same ↦
      let own : count k started ≡ one_if (is_some (lookup key values)) =
        h k ∙ ap (λ x. one_if (is_some (lookup x values))) (sym ((eq_iff key k).0 same)) in
      elim (Bool-cases (is_some (lookup key values))) [
        | inl known ↦ rw (lookup-insert key k value values, known, same) (own ∙ rw known refl)
        | inr new ↦
            rw (lookup-insert key k value values, new, same)
              (let zero_so_far = rw new at own in omega (arith, zero_so_far))
      ]
]

take-Covers :
    (key : String) (before after started : List String) (values : Dict String)
    → started ≡ before ++ key ∷ after
    → Covers started values
    → Covers (before ++ after) (delete key values)
take-Covers key before after started values e h k =
    let total : one_if (key == k) + count k (before ++ after) ≡ one_if (is_some (lookup k values)) =
      sym (count-middle k key before after) ∙ ap (count k) (sym e) ∙ h k in
    let once = one_if-le (is_some (lookup k values)) in
    elim (Bool-cases (key == k)) [
      | inr other ↦
          rw (lookup-delete key k values, other)
            (let rest = rw other at total in omega (arith, rest))
      | inl same ↦
          let one = rw same at total in
          rw (lookup-delete key k values, same) (omega (arith, one, once))
    ]

begin_controller-Covers :
    (s : Schedule) (go_name hash : String) (o : Object)
    → Covers s.started s.pending.values
    → let (pending, start) = begin_controller go_name hash o s.pending in
      Covers (start_if start (object_key go_name o) s.started) pending.values
unfolding begin_controller enqueue_controller
begin_controller-Covers s go_name hash o h =
    elim (Bool-cases (is_recorded o.annotations hash o.generation)) [
      | inl e ↦ rw (e, begin_controller) h
      | inr e ↦
          rw (e, begin_controller)
            (enqueue-Covers (object_key go_name o) hash s.started s.pending.values h)
    ]

begin_phase-Covers :
    (s : Schedule) (go_name phase : String) (o : Object)
    → Covers s.started s.pending.values
    → let (pending, start) = begin_phase go_name phase o s.pending in
      Covers (start_if start (phase_key go_name o) s.started) pending.values
unfolding begin_phase enqueue_phase
begin_phase-Covers s go_name phase o h = elim (Bool-cases (is_some o.deletion_timestamp)) [
  | inl e ↦ rw (e, begin_phase) h
  | inr e ↦ elim (Bool-cases (is_phase_kept o.annotations phase)) [
    | inl k ↦ rw (e, k, begin_phase) h
    | inr k ↦
        rw (e, k, begin_phase)
          (enqueue-Covers (phase_key go_name o) phase s.started s.pending.values h)
  ]
]

Step-Covers :
    {s t : Schedule}
    → Step s t
    → Covers s.started s.pending.values
    → Covers t.started t.pending.values
unfolding take_controller take_phase
Step-Covers (controller_recorded s go_name hash o) h = begin_controller-Covers s go_name hash o h
Step-Covers (phase_recorded s go_name phase o) h = begin_phase-Covers s go_name phase o h
Step-Covers (controller_taken s before after key e) h =
    take-Covers key before after s.started s.pending.values e h
Step-Covers (phase_taken s before after key e) h =
    take-Covers key before after s.started s.pending.values e h

-- However recordings and flushes are interleaved, a key has exactly one flush under way if an update
-- of it is pending, and none otherwise: no pending update is left without a flush, no flush finds
-- nothing to take, and when no flush is under way nothing is pending.
pub pending-Covers :
    {s : Schedule}
    → Reach s
    → (key : String) → count key s.started ≡ one_if (is_some (lookup key s.pending.values))
unfolding lookup
pending-Covers here key = refl
pending-Covers (next r st) key = Step-Covers st (pending-Covers r) key
