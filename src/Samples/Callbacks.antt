-- ===== src/Samples/Callbacks.antt =====
-- The theorems on the report senders at a receiver that refuses the first two requests.
use kausality.Base.{
  String, ℕ, suc, ◌≤◌, pos, ltb, true, false, if◌then◌else◌, [], ◌∷◌, none, ok, err, ◌≡◌, ◌==◌, ap,
  refl, arith,
}
use mathlib.Core.Bool.{false≢true}
use kausality.Callback.Reports.{DriftReport, detected, ObjectReference}
use kausality.Callback.Tracker.{Tracker, track, remove, is_tracked, cleanup}
use kausality.Callback.Dedup.{tracked, removed, cleaned, Run, done, step, track-once}
use kausality.Callback.Sender.{Network, SenderState, send}
use kausality.Callback.Retries.{Counts, send-sent}

abbrev empty : Tracker
empty = record { ids = []; ttl = 600 }

abbrev once : Tracker
once = record { ids = ("d1", 700) ∷ []; ttl = 600 }

abbrev both : Tracker
both = record { ids = ("d1", 700) ∷ ("d2", 750) ∷ []; ttl = 600 }

-- Another identifier is tracked and removed, and there is a clean-up.
busy : Run 700 "d1" once once
unfolding track cleanup remove
busy = step (tracked 150 "d2" (omega arith)) (
    step (cleaned 699 (omega arith))
      (step (removed "d2" (λ e. false≢true (ap (λ k. k == "d1") e))) done))

test-tracked : (track 100 "d1" empty).0 ≡ once
unfolding track
test-tracked = refl

test-both : (track 150 "d2" once).0 ≡ both
unfolding track
test-both = refl

test-expired : (track 700 "d1" once).1 ≡ true
unfolding track
test-expired = refl

track-once_example : (track 699 "d1" once).1 ≡ false
unfolding track
track-once_example = track-once 100 699 "d1" empty once refl busy (omega arith)

-- The state of the receiver is the number of requests so far.
abbrev pub flaky : Network
flaky = record {
  Net = ℕ;
  create = none;
  post = λ w body.
      (if ltb w 2 then err "refused" else ok (record { status = 200; body = ok "yes" }), suc w);
  pause = λ w. (none, w);
  encode = λ r. ok r.id;
  decode = λ body. ok (record { acknowledged = true; error = "" });
}

abbrev pub counts : Counts flaky (λ w. w)
counts = record { posts = λ w body. refl; pauses = λ w. refl }

abbrev ref : String → ObjectReference
ref name = record {
  api_version = "apps/v1";
  kind = "Deployment";
  namespace = "default";
  name = name;
  uid = "";
  generation = pos 1;
  observed_generation = pos 1;
  lifecycle_phase = "";
}

abbrev pub report : DriftReport
report = record {
  id = "d1";
  phase = detected;
  parent = ref "web";
  child = ref "web-1";
  old_object = none;
  new_object = "{}";
  request = record { user = "alice"; uid = "1"; operation = "UPDATE" };
}

abbrev start : SenderState flaky
start = record { tracker = empty; net = 0 }

test-third : (send flaky (pos 3) 100 start report).1.net ≡ 3
unfolding send
test-third = refl

send-sent_example :
    (1 ≤ (send flaky (pos 3) 100 start report).1.net)
    × ((send flaky (pos 3) 100 start report).1.net ≤ 4)
unfolding send is_tracked
send-sent_example = send-sent flaky (λ w. w) counts refl 3 100 start report "d1" refl
