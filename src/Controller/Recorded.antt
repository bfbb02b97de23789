-- ===== src/Controller/Recorded.antt =====
-- pkg/controller/tracker.go: what a recording that succeeds has left on the object.
use kausality.Base.{
  String, ℤ, true, false, ◌&&◌, ◌==◌, if◌then◌else◌, [], Option, none, some, option_or, ok,
  >>=-eq-ok, ok-injective, Dict, lookup, insert, delete, lookup-insert, lookup-insert_self,
  lookup-delete, eq_refl, ◌≡◌, refl, sym, ap, subst, ◌∙◌, Bool-cases, Option-cases, inl, inr,
}
use mathlib.Core.Option.{some-injective, none-ne-some}
use kausality.Base.Digits.{format_int}
use kausality.Base.Text.{join_commas, IsClean}
use kausality.Annotations.{controllers_annotation, observed_generation_annotation}
use kausality.Kube.{Object, ObjectRef, Client, ReadsBack, SameMetadata, entry}
use kausality.Controller.Hashes.{parse_hashes, contains_hash, append_capped, add_hash}
use kausality.Controller.Capped.{add_hash-parse}
use kausality.Controller.Pending.{object_key, is_recorded, enqueue_controller, take_controller}
use kausality.Controller.Recording.{
  Retry, AnswersByRun, ref_of, controller_update, run_update, TrackerState, after_retry,
  flush_controller, record_controller,
}

pub entry-insert :
    (k j v : String) (m : Dict String)
    → entry (some (insert k v m)) j ≡ (if k == j then v else entry (some m) j)
entry-insert k j v m = elim (Bool-cases (k == j)) [
  | inl e ↦ ap (λ x. option_or x "") (lookup-insert k j v m) ∙ rw e refl
  | inr e ↦ ap (λ x. option_or x "") (lookup-insert k j v m) ∙ rw e refl
]

pub entry_or_empty :
    (m : Option (Dict String)) (k : String) → entry (some (option_or m [])) k ≡ entry m k
unfolding lookup
entry_or_empty none k = refl
entry_or_empty (some m) k = refl

-- `addHash` and the flush of the tracker write the same list where the hash is new.
capped-contains :
    (existing hash : String)
    → IsClean hash
    → contains_hash (parse_hashes existing) hash ≡ false
    → contains_hash (parse_hashes (join_commas (append_capped (parse_hashes existing) hash))) hash
      ≡ true
unfolding add_hash
capped-contains existing hash clean new = rw new at (add_hash-parse existing hash clean).0

insert-recorded :
    (hash : String) (generation : ℤ) (m : Dict String)
    → contains_hash (parse_hashes (entry (some m) controllers_annotation)) hash ≡ true
    → is_recorded
        (some (insert observed_generation_annotation (format_int generation) m))
        hash
        generation
      ≡ true
unfolding is_recorded
insert-recorded hash generation m h =
    rw
      (
        entry-insert observed_generation_annotation controllers_annotation (format_int generation)
            m,
        entry-insert observed_generation_annotation observed_generation_annotation
            (format_int generation) m,
        eq_refl (format_int generation),
        h,
      )
      refl

controller_update-recorded :
    (hash : String) (generation : ℤ) (current : Object) (m : Dict String)
    → IsClean hash
    → controller_update hash generation current ≡ some m
    → is_recorded (some m) hash generation ≡ true
unfolding controller_update
controller_update-recorded hash generation current m clean e =
    let existing = entry current.annotations controllers_annotation in
    let base = option_or current.annotations [] in
    let same = entry_or_empty current.annotations controllers_annotation in
    let done =
      λ (x : Dict String)
          (h : contains_hash (parse_hashes (entry (some x) controllers_annotation)) hash ≡ true)
          (q : insert observed_generation_annotation (format_int generation) x ≡ m).
        subst (λ y. is_recorded (some y) hash generation ≡ true) q
          (insert-recorded hash generation x h) in
    elim (Bool-cases (contains_hash (parse_hashes existing) hash)) [
      | inr new ↦
          done
            (insert controllers_annotation
              (join_commas (append_capped (parse_hashes existing) hash)) base)
            (rw (entry-insert controllers_annotation controllers_annotation _ base)
              (capped-contains existing hash clean new))
            (some-injective _ _ (rw new at e))
      | inl known ↦
          elim (Bool-cases
            (entry current.annotations observed_generation_annotation == format_int generation)) [
              | inl seen ↦ absurd (none-ne-some _ (rw (known, seen) at e))
              | inr other ↦
                  done base (rw (same, known) refl) (some-injective _ _ (rw (known, other) at e))
            ]
    ]

controller_update-kept :
    (hash : String) (generation : ℤ) (current : Object)
    → controller_update hash generation current ≡ none
    → is_recorded current.annotations hash generation ≡ true
unfolding controller_update is_recorded
controller_update-kept hash generation current e =
    let recorded =
      contains_hash (parse_hashes (entry current.annotations controllers_annotation)) hash
      && (entry current.annotations observed_generation_annotation == format_int generation) in
    elim (Bool-cases recorded) [ inl h ↦ h | inr h ↦ absurd (none-ne-some _ (sym (rw h at e))) ]

is_recorded-same :
    (o p : Object) (hash : String) (generation : ℤ)
    → SameMetadata o p
    → is_recorded o.annotations hash generation ≡ is_recorded p.annotations hash generation
unfolding is_recorded
is_recorded-same o p hash generation same =
    rw
      (
        same.same_annotations controllers_annotation,
        same.same_annotations observed_generation_annotation,
      )
      refl

-- A run of the body that succeeds leaves an object that both annotations are on.
run-recorded :
    (c : Client) (reads_back : ReadsBack c) (hash : String) (generation : ℤ) (ref : ObjectRef)
    (w w1 : c.World)
    → IsClean hash
    → run_update c (controller_update hash generation) ref w ≡ ok w1
    → (p : Object) × (c.get w1 ref ≡ ok p) × (is_recorded p.annotations hash generation ≡ true)
unfolding run_update
run-recorded c reads_back hash generation ref w w1 clean h =
    let (current, got, changed) = >>=-eq-ok (c.get w ref) _ h in
    elim (Option-cases (controller_update hash generation current)) [
      | inl kept ↦
          let same : w ≡ w1 = ok-injective (rw kept at changed) in
          (current, rw (← same) got, controller_update-kept hash generation current kept)
      | inr (m, written) ↦
          let (p, read, same) = reads_back w ref current m w1 got (rw written at changed) in
          (
            p,
            read,
            sym (is_recorded-same (record current { annotations = some m }) p hash generation same)
                ∙ controller_update-recorded hash generation current m clean written,
          )
    ]

flush_controller-ok :
    (c : Client) (retry : Retry c) (key hash : String) (generation : ℤ) (ref : ObjectRef)
    (s : TrackerState c retry) (w1 : c.World)
    → lookup key s.pending.values ≡ some hash
    → lookup key s.pending.generations ≡ some generation
    → retry (run_update c (controller_update hash generation) ref) s.world ≡ ok w1
    → flush_controller c retry key ref s ≡ record {
      world = w1;
      pending = record {
        values = delete key s.pending.values;
        generations = delete key s.pending.generations;
      };
    }
unfolding flush_controller take_controller after_retry
flush_controller-ok c retry key hash generation ref s w1 value number done =
    rw (value, number, take_controller, flush_controller, done) refl

record_controller-new :
    (c : Client) (retry : Retry c) (go_name hash : String) (o : Object) (s : TrackerState c retry)
    → is_recorded o.annotations hash o.generation ≡ false
    → lookup (object_key go_name o) s.pending.values ≡ none
    → record_controller c retry go_name hash o s
      ≡ flush_controller c retry (object_key go_name o) (ref_of o) (record s {
        pending = (enqueue_controller (object_key go_name o) hash o.generation s.pending).0;
      })
unfolding record_controller enqueue_controller
record_controller-new c retry go_name hash o s new idle =
    rw (new, idle, enqueue_controller, record_controller) refl

record_controller-skips :
    (c : Client) (retry : Retry c) (go_name hash : String) (o : Object) (s : TrackerState c retry)
    → is_recorded o.annotations hash o.generation ≡ true
    → record_controller c retry go_name hash o s ≡ s
unfolding record_controller
record_controller-skips c retry go_name hash o s known = rw (known, record_controller) refl

-- An object on which the hash or the generation is missing, and no update of it pending. If the
-- client's updates are read back and the retries succeed, then after `RecordControllerAsync` nothing
-- is pending for the object, and the object that the client returns has both the hash and the
-- generation, so that recording them on it again is skipped.
pub record_controller-recorded :
    (c : Client) (retry : Retry c) (answers : AnswersByRun c retry) (reads_back : ReadsBack c)
    (go_name hash : String) (o : Object) (s : TrackerState c retry) (w1 : c.World)
    → IsClean hash
    → is_recorded o.annotations hash o.generation ≡ false
    → lookup (object_key go_name o) s.pending.values ≡ none
    → retry (run_update c (controller_update hash o.generation) (ref_of o)) s.world ≡ ok w1
    → let t = record_controller c retry go_name hash o s in
      (lookup (object_key go_name o) t.pending.values ≡ none)
      × (p : Object) × (c.get t.world (ref_of o) ≡ ok p)
      × (is_recorded p.annotations hash o.generation ≡ true)
      × (record_controller c retry go_name hash (record p { generation = o.generation }) t ≡ t)
unfolding enqueue_controller
record_controller-recorded c retry answers reads_back go_name hash o s w1 clean new idle done =
    let key = object_key go_name o in
    let queued = record s { pending = (enqueue_controller key hash o.generation s.pending).0 } in
    let (seen, run) =
      answers (run_update c (controller_update hash o.generation) (ref_of o)) s.world in
    let (p, read, recorded) =
      run-recorded c reads_back hash o.generation (ref_of o) seen w1 clean (sym run ∙ done) in
    let all : record_controller c retry go_name hash o s ≡ record {
      world = w1;
      pending = record {
        values = delete key queued.pending.values;
        generations = delete key queued.pending.generations;
      };
    } =
      record_controller-new c retry go_name hash o s new idle
      ∙ flush_controller-ok c retry key hash o.generation (ref_of o) queued w1
          (lookup-insert_self key hash s.pending.values)
          (lookup-insert_self key o.generation s.pending.generations) done in
    simp all (
      lookup-delete key key (insert key hash s.pending.values) ∙ rw (eq_refl key) refl,
      p,
      read,
      recorded,
      record_controller-skips c retry go_name hash (record p { generation = o.generation }) _
          recorded,
    )
