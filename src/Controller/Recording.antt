-- ===== src/Controller/Recording.antt =====
-- pkg/controller/tracker.go: recording a controller or a phase on an object. `asyncUpdateDelay` is 0,
-- so a controller is flushed by the call that enqueues it. `retry` stands for client-go's
-- `RetryOnConflict`; an error of it is logged.
use kausality.Base.{
  String, ℤ, Bool, false, not, ◌&&◌, ◌==◌, if◌then◌else◌, [], Option, none, some, is_some,
  option_or, Result, ok, err, ◌>>=◌, Dict, insert, ◌≡◌,
}
use kausality.Base.Digits.{format_int}
use kausality.Base.Text.{join_commas}
use kausality.Annotations.{controllers_annotation, observed_generation_annotation, phase_annotation}
use kausality.Kube.{Object, ObjectRef, Client, entry}
use kausality.Controller.Hashes.{parse_hashes, contains_hash, append_capped}
use kausality.Controller.Pending.{
  Pending, object_key, phase_key, is_recorded, enqueue_controller, take_controller, is_phase_kept,
  enqueue_phase, take_phase,
}

abbrev pub Retry : Client → Type 0
Retry c = (c.World → Result c.World) → c.World → Result c.World

-- The answer of the retries is the answer of a run of their body.
abbrev pub AnswersByRun : (c : Client) → Retry c → Type 0
AnswersByRun c retry =
    (body : c.World → Result c.World) (w : c.World) → (seen : c.World) × (retry body w ≡ body seen)

abbrev pub ref_of : Object → ObjectRef
ref_of o = record {
  api_version = o.api_version;
  kind = o.kind;
  namespace = o.namespace;
  name = o.name;
}

-- The annotations that the flush of a controller writes; `none` where they are up to date.
unfoldable pub controller_update : String → ℤ → Object → Option (Dict String)
unfolding parse_hashes contains_hash append_capped format_int insert
controller_update hash generation current =
    let hashes = parse_hashes (entry current.annotations controllers_annotation) in
    let base = option_or current.annotations [] in
    let number = format_int generation in
    if contains_hash hashes hash
      && (entry current.annotations observed_generation_annotation == number)
    then none
    else some (
        insert observed_generation_annotation number (
          if contains_hash hashes hash
          then base
          else insert controllers_annotation (join_commas (append_capped hashes hash)) base))

unfoldable pub phase_update : String → Object → Option (Dict String)
unfolding is_phase_kept insert
phase_update phase current =
    if is_phase_kept current.annotations phase
    then none
    else some (insert phase_annotation phase (option_or current.annotations []))

module _ (c : Client) where
  -- The body of the retries: get, change, update.
  unfoldable pub run_update : (Object → Option (Dict String)) → ObjectRef → c.World → Result c.World
  run_update change ref w = c.get w ref >>= (λ current. elim (change current) [
    | none ↦ ok w
    | some annotations ↦ c.update w (record current { annotations = some annotations })
  ])

-- `RecordControllerAsync` up to the flush, its section under the lock: the answer says whether the
-- call starts a flush of the key.
unfoldable pub begin_controller : String → String → Object → Pending → Pending × Bool
unfolding is_recorded object_key enqueue_controller
begin_controller go_name hash o s =
    let (pending, already) = enqueue_controller (object_key go_name o) hash o.generation s in
    if is_recorded o.annotations hash o.generation then (s, false) else (pending, not already)

-- `RecordPhaseAsync` up to the flush.
unfoldable pub begin_phase : String → String → Object → Pending → Pending × Bool
unfolding is_phase_kept phase_key enqueue_phase
begin_phase go_name phase o s =
    let (pending, already) = enqueue_phase (phase_key go_name o) phase s in
    if is_some o.deletion_timestamp
    then (s, false)
    else if is_phase_kept o.annotations phase
    then (s, false)
    else (pending, not already)

module _ (c : Client) (retry : Retry c) where
  -- The cluster, and the tracker's pending updates.
  pub record TrackerState : Type 0 where
    pub world : c.World
    pub pending : Pending

  -- The cluster that the retries leave.
  unfoldable pub after_retry : Result c.World → c.World → c.World
  after_retry (ok w) before = w
  after_retry (err e) before = before

  unfoldable pub flush_controller : String → ObjectRef → TrackerState → TrackerState
  unfolding take_controller run_update controller_update after_retry
  flush_controller key ref s =
      let (taken, pending) = take_controller key s.pending in
      elim taken [
        | none ↦ record s { pending = pending }
        | some (hash, generation) ↦ record {
          world =
              after_retry (retry (run_update c (controller_update hash generation) ref) s.world)
                s.world;
          pending = pending;
        }
      ]

  unfoldable pub record_controller : String → String → Object → TrackerState → TrackerState
  unfolding begin_controller flush_controller
  record_controller go_name hash o s =
      let (pending, start) = begin_controller go_name hash o s.pending in
      let queued = record s { pending = pending } in
      if start then flush_controller (object_key go_name o) (ref_of o) queued else queued

  unfoldable pub flush_phase : String → ObjectRef → TrackerState → TrackerState
  unfolding take_phase run_update phase_update after_retry
  flush_phase key ref s =
      let (taken, pending) = take_phase key s.pending in
      elim taken [
        | none ↦ record s { pending = pending }
        | some phase ↦ record {
          world = after_retry (retry (run_update c (phase_update phase) ref) s.world) s.world;
          pending = pending;
        }
      ]

  -- The answer says whether a flush of the key is started.
  unfoldable pub record_phase : String → String → Object → TrackerState → TrackerState × Bool
  unfolding begin_phase
  record_phase go_name phase o s =
      let (pending, start) = begin_phase go_name phase o s.pending in
      (record s { pending = pending }, start)
