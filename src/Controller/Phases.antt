-- ===== src/Controller/Phases.antt =====
-- pkg/controller/tracker.go: what a flush of a phase that succeeds has left on the object.
use kausality.Base.{
  String, Bool, true, false, ◌||◌, ◌==◌, if◌then◌else◌, [], Option, none, some, option_or, ok,
  >>=-eq-ok, ok-injective, Dict, lookup, insert, delete, lookup-delete, eq_refl, eq_iff, ◌≡◌, refl,
  sym, ap, ◌∙◌, Bool-cases, inl, inr,
}
use mathlib.Core.Bool.{false≢true}
use kausality.Annotations.{phase_annotation, phase_value_initialized}
use kausality.Kube.{Object, ObjectRef, Client, ReadsBack, entry}
use kausality.Controller.Pending.{is_phase_kept, take_phase}
use kausality.Controller.Recording.{
  Retry, AnswersByRun, phase_update, run_update, TrackerState, after_retry, flush_phase,
}
use kausality.Controller.Recorded.{entry-insert}

flush_phase-ok :
    (c : Client) (retry : Retry c) (key phase : String) (ref : ObjectRef) (s : TrackerState c retry)
    (w1 : c.World)
    → lookup key s.pending.values ≡ some phase
    → retry (run_update c (phase_update phase) ref) s.world ≡ ok w1
    → flush_phase c retry key ref s
      ≡ record { world = w1; pending = record s.pending { values = delete key s.pending.values } }
unfolding flush_phase take_phase after_retry
flush_phase-ok c retry key phase ref s w1 value done =
    rw (value, take_phase, flush_phase, done) refl

phase_update-kept :
    (phase : String) (m : Option (Dict String))
    → is_phase_kept m phase ≡ true
    → entry m phase_annotation ≡ (
        if entry m phase_annotation == phase_value_initialized
        then phase_value_initialized
        else phase)
unfolding is_phase_kept
phase_update-kept phase none h = absurd (false≢true h)
phase_update-kept phase (some m) h =
    let now = entry (some m) phase_annotation in
    elim (Bool-cases (now == phase_value_initialized)) [
      | inl e ↦ rw e ((eq_iff now phase_value_initialized).0 e)
      | inr e ↦ rw e ((eq_iff now phase).0 (rw e at h))
    ]

or_false : (a b : Bool) → (a || b) ≡ false → a ≡ false
or_false true b h = h
or_false false b h = refl

phase_update-replaced :
    (phase : String) (m : Option (Dict String))
    → is_phase_kept m phase ≡ false
    → (entry m phase_annotation == phase_value_initialized) ≡ false
unfolding is_phase_kept
phase_update-replaced phase none h = refl
phase_update-replaced phase (some m) h = or_false _ _ h

run-phase :
    (c : Client) (reads_back : ReadsBack c) (phase : String) (ref : ObjectRef) (w w1 : c.World)
    → run_update c (phase_update phase) ref w ≡ ok w1
    → (o : Object) × (c.get w ref ≡ ok o)
      × (p : Object) × (c.get w1 ref ≡ ok p)
      × (entry p.annotations phase_annotation ≡ (
          if entry o.annotations phase_annotation == phase_value_initialized
          then phase_value_initialized
          else phase))
unfolding run_update phase_update
run-phase c reads_back phase ref w w1 h =
    let (o, got, changed) = >>=-eq-ok (c.get w ref) _ h in
    elim (Bool-cases (is_phase_kept o.annotations phase)) [
      | inl kept ↦
          let same : w ≡ w1 = ok-injective (rw kept at changed) in
          (o, got, o, rw (← same) got, phase_update-kept phase o.annotations kept)
      | inr new ↦
          let (p, read, same) =
            reads_back w ref o (insert phase_annotation phase (option_or o.annotations [])) w1 got
              (rw new at changed) in
          (
            o,
            got,
            p,
            read,
            ap (λ x. option_or x "") (sym (same.same_annotations phase_annotation))
                ∙ entry-insert phase_annotation phase_annotation phase (option_or o.annotations [])
                ∙ rw (phase_update-replaced phase o.annotations new) refl,
          )
    ]

-- The flush of a phase that is pending, where the client's updates are read back and the retries
-- succeed: the phase of the object that the client returns is the pending one, but an object that
-- was initialized when it was read has stayed so.
pub flush_phase_lem :
    (c : Client) (retry : Retry c) (answers : AnswersByRun c retry) (reads_back : ReadsBack c)
    (key phase : String) (ref : ObjectRef) (s : TrackerState c retry) (w1 : c.World)
    → lookup key s.pending.values ≡ some phase
    → retry (run_update c (phase_update phase) ref) s.world ≡ ok w1
    → let t = flush_phase c retry key ref s in
      (lookup key t.pending.values ≡ none)
      × (seen : c.World) × (o : Object) × (c.get seen ref ≡ ok o)
      × (p : Object) × (c.get t.world ref ≡ ok p)
      × (entry p.annotations phase_annotation ≡ (
          if entry o.annotations phase_annotation == phase_value_initialized
          then phase_value_initialized
          else phase))
flush_phase_lem c retry answers reads_back key phase ref s w1 pending done =
    let (seen, run) = answers (run_update c (phase_update phase) ref) s.world in
    let (o, got, p, read, set) = run-phase c reads_back phase ref seen w1 (sym run ∙ done) in
    simp (flush_phase-ok c retry key phase ref s w1 pending done)
      (lookup-delete key key s.pending.values ∙ rw (eq_refl key) refl, seen, o, got, p, read, set)
