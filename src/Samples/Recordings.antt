-- ===== src/Samples/Recordings.antt =====
-- The theorems on the tracker of controllers and phases, at the cluster of one object.
use kausality.Base.{
  is_some, String, pos, true, ◌==◌, if◌then◌else◌, [], ◌∷◌, none, some, ok, lookup, ◌≡◌, ◌≢◌, refl,
  ap,
}
use kausality.Annotations.{
  phase_annotation, phase_value_initialized, controllers_annotation, observed_generation_annotation,
}
use kausality.Kube.{Object, entry}
use mathlib.Core.Bool.{false≢true}
use kausality.Base.Text.{join_commas, IsClean, is_space, plain-IsClean}
use kausality.Controller.Pending.{object_key, is_recorded}
use kausality.Controller.Recording.{
  begin_phase, Retry, AnswersByRun, ref_of, run_update, controller_update, phase_update,
  TrackerState, record_controller, flush_phase,
}
use kausality.Controller.Pending.{phase_key}
use kausality.Controller.Recorded.{record_controller-recorded}
use kausality.Controller.Phases.{flush_phase_lem}
use kausality.Controller.Scheduled.{
  one_if, Schedule, phase_recorded, idle, Reach, here, next, count, pending-Covers,
}
use kausality.Samples.Fixtures.{parent, cluster, cluster-ReadsBack}

ne_nil : ◌≢◌ {A = String} "a1" ""
ne_nil e = false≢true (ap (λ s. s == "") e)

clean : IsClean "a1"
unfolding is_space
clean = plain-IsClean "a1" ((refl, refl), ((refl, refl), tt)) ne_nil

abbrev once : Retry cluster
once body w = body w

once_answers : AnswersByRun cluster once
once_answers body w = (w, refl)

abbrev fresh : TrackerState cluster once
fresh = record { world = parent; pending = record { values = []; generations = [] } }

abbrev recorded : Object
recorded = record parent {
  annotations = some ((controllers_annotation, "a1") ∷ (observed_generation_annotation, "4") ∷ []);
}

test-recorded :
    record_controller cluster once "" "a1" parent fresh ≡ record fresh { world = recorded }
unfolding record_controller join_commas
test-recorded = refl

record_controller-recorded_example :
    let t = record_controller cluster once "" "a1" parent fresh in
    (lookup "Deployment/shop/web" t.pending.values ≡ none)
    × (p : Object) × (cluster.get t.world (ref_of parent) ≡ ok p)
    × (is_recorded p.annotations "a1" (pos 4) ≡ true)
    × (record_controller cluster once "" "a1" (record p { generation = pos 4 }) t ≡ t)
unfolding is_recorded object_key controller_update run_update lookup join_commas
record_controller-recorded_example =
    record_controller-recorded cluster once once_answers cluster-ReadsBack "" "a1" parent fresh
      recorded clean refl refl refl

abbrev queued : TrackerState cluster once
queued = record fresh {
  pending = record { values = ("k/phase", "initialized") ∷ []; generations = [] };
}

flush_phase_lem_example :
    let t = flush_phase cluster once "k/phase" (ref_of parent) queued in
    (lookup "k/phase" t.pending.values ≡ none)
    × (seen : Object) × (o : Object) × (cluster.get seen (ref_of parent) ≡ ok o)
    × (p : Object) × (cluster.get t.world (ref_of parent) ≡ ok p)
    × (entry p.annotations phase_annotation ≡ (
        if entry o.annotations phase_annotation == phase_value_initialized
        then phase_value_initialized
        else "initialized"))
unfolding phase_update run_update lookup
flush_phase_lem_example =
    flush_phase_lem cluster once once_answers cluster-ReadsBack "k/phase" "initialized"
      (ref_of parent) queued
      (record parent { annotations = some ((phase_annotation, "initialized") ∷ []) }) refl refl

-- Two requests record a phase of the same object.
abbrev first_recorded : Schedule
unfolding begin_phase
first_recorded = record {
  pending = (begin_phase "" "initializing" parent idle.pending).0;
  started = phase_key "" parent ∷ [];
}

abbrev both : Schedule
unfolding begin_phase
both = record {
  pending = (begin_phase "" "initialized" parent first_recorded.pending).0;
  started = phase_key "" parent ∷ [];
}

both-Reach : Reach both
unfolding begin_phase first_recorded both
both-Reach =
    next (next here (phase_recorded idle "" "initializing" parent))
      (phase_recorded first_recorded "" "initialized" parent)

pending-Covers_example :
    count (phase_key "" parent) both.started
    ≡ one_if (is_some (lookup (phase_key "" parent) both.pending.values))
pending-Covers_example = pending-Covers both-Reach (phase_key "" parent)
