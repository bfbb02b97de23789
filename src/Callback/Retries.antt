-- ===== src/Callback/Retries.antt =====
-- pkg/callback/sender.go: how often a report is sent.
use kausality.Base.{
  none, String, ℕ, zero, suc, ◌+◌, ◌≤◌, pos, Bool, false, if◌then◌else◌, Option, ok, ◌⊎◌, ◌≡◌, refl,
  arith, inl, inr, Option-cases, Bool-cases,
}
use kausality.Callback.Reports.{DriftReport, DriftReportPhase, detected, resolved}
use kausality.Callback.Tracker.{Tracker, track, is_tracked}
use kausality.Callback.Dedup.{track_lem}
use kausality.Callback.Sender.{
  Network, attempts, do_send, retry, send_loop, SenderState, send_fresh, send,
}

phase-cases : (p : DriftReportPhase) → (p ≡ detected) ⊎ (p ≡ resolved)
phase-cases detected = inl refl
phase-cases resolved = inr refl

-- The report is of the phase "Detected" and its identifier is tracked.
abbrev pub is_duplicate : ℕ → Tracker → DriftReport → Bool
is_duplicate now t report = elim report.phase [
  | detected ↦ is_tracked now report.id t
  | resolved ↦ false
]

-- A count of the requests that a network has seen: a request adds one, and a wait none.
pub record Counts (n : Network) (sent : n.Net → ℕ) : Type 0 where
  pub posts : (w : n.Net) (body : String) → sent (n.post w body).1 ≡ suc (sent w)
  pub pauses : (w : n.Net) → sent (n.pause w).1 ≡ sent w

module _ (n : Network) (sent : n.Net → ℕ) (counts : Counts n sent) (created : n.create ≡ none) where
  open n use {Net, pause}

  do_send-sent : (w : Net) (body : String) → sent (do_send n w body).1 ≡ suc (sent w)
  unfolding do_send
  do_send-sent w body = rw created (counts.posts w body)

  retry-sent :
      (left : ℕ) (w : Net) (body : String) (last : Option String)
      → (sent w ≤ sent (retry n left w body last).1)
        × (sent (retry n left w body last).1 ≤ left + sent w)
  unfolding retry
  retry-sent zero w body last = (omega arith, omega arith)
  retry-sent (suc left) w body last =
      let w1 = (pause w).1 in
      let later = retry-sent left (do_send n w1 body).1 body (do_send n w1 body).0 in
      let waits = counts.pauses w in
      let posts = do_send-sent w1 body in
      elim (Option-cases (pause w).0) [
        | inr (e, p) ↦ rw (p, retry) (omega (arith, waits), omega (arith, waits))
        | inl p ↦ elim (Option-cases (do_send n w1 body).0) [
          | inl q ↦ rw (p, q, retry) (omega (arith, waits, posts), omega (arith, waits, posts))
          | inr (e, q) ↦
              rw (p, q, retry)
                (omega (arith, later.0, waits, posts), omega (arith, later.1, waits, posts))
        ]
      ]

  send_loop-sent :
      (left : ℕ) (w : Net) (body : String)
      → (suc (sent w) ≤ sent (send_loop n (suc left) w body).1)
        × (sent (send_loop n (suc left) w body).1 ≤ suc left + sent w)
  unfolding send_loop
  send_loop-sent left w body =
      let later = retry-sent left (do_send n w body).1 body (do_send n w body).0 in
      let posts = do_send-sent w body in
      elim (Option-cases (do_send n w body).0) [
        | inl q ↦ rw (q, send_loop) (omega (arith, posts), omega (arith, posts))
        | inr (e, q) ↦
            rw (q, send_loop) (omega (arith, later.0, posts), omega (arith, later.1, posts))
      ]

  send_fresh-sent :
      (left : ℕ) (s : SenderState n) (report : DriftReport) (body : String)
      → n.encode report ≡ ok body
      → (suc (sent s.net) ≤ sent (send_fresh n (pos left) s report).1.net)
        × (sent (send_fresh n (pos left) s report).1.net ≤ suc left + sent s.net)
  unfolding send_fresh attempts
  send_fresh-sent left s report body e = rw (e, send_fresh) (send_loop-sent left s.net body)

  -- With a retry count that is not negative and a URL for which a request can be built, `Send` of a
  -- report that can be encoded sends no request for a duplicate. For any other report it sends at
  -- least one request and at most one more than the retry count.
  pub send-sent :
      (left now : ℕ) (s : SenderState n) (report : DriftReport) (body : String)
      → n.encode report ≡ ok body
      → let after = sent (send n (pos left) now s report).1.net in
        ((if is_duplicate now s.tracker report then 0 else 1) + sent s.net ≤ after)
        × (after ≤ (if is_duplicate now s.tracker report then 0 else suc left) + sent s.net)
  unfolding send
  send-sent left now s report body e =
      let new = (track_lem now now report.id report.id s.tracker).0 in
      let tracked = record s { tracker = (track now report.id s.tracker).0 } in
      elim (phase-cases report.phase) [
        | inr p ↦
            let sent_once = send_fresh-sent left s report body e in
            rw (p, send) (omega (arith, sent_once.0), sent_once.1)
        | inl p ↦ elim (Bool-cases (is_tracked now report.id s.tracker)) [
          | inl known ↦ rw (p, send, new, known) (omega arith, omega arith)
          | inr fresh ↦
              let sent_once = send_fresh-sent left tracked report body e in
              rw (p, send, new, fresh) (omega (arith, sent_once.0), sent_once.1)
        ]
      ]
