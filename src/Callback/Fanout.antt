-- ===== src/Callback/Fanout.antt =====
-- pkg/callback/multi_sender.go: reports to all senders.
use kausality.Base.{
  String, ℕ, ◌+◌, ◌<◌, true, false, not, List, [], ◌∷◌, map, All, Option, Bool, if◌then◌else◌, none,
  pos, ok, ◌≤◌, suc, arith, ◌≡◌, refl, sym, ap, ◌∙◌, inl, inr, Bool-cases, eq_refl, lookup,
  lookup-delete, Result-cases, ℤ,
}
use mathlib.Core.Bool.{false≢true}
use kausality.Callback.Reports.{DriftReport, DriftReportPhase, detected, resolved}
use kausality.Callback.Tracker.{Tracker, is_before, is_tracked, track, remove}
use kausality.Callback.Dedup.{done, track_lem, track-once}
use kausality.Callback.Sender.{Network, SenderState, send_fresh, send, mark_resolved}
use kausality.Callback.Retries.{Counts, is_duplicate, send-sent}
use kausality.Callback.Multi.{
  Networks, SenderConfig, Sender, send_async, multi_send_async, sender_mark_resolved,
  multi_mark_resolved,
}

track-known :
    (now : ℕ) (id : String) (t : Tracker) → (track now id t).1 ≡ false → (track now id t).0 ≡ t
unfolding track
track-known now id t h = elim (Bool-cases (is_before now (lookup id t.ids))) [
  | inl e ↦ rw e refl
  | inr e ↦ absurd (false≢true (sym (rw e at h)))
]

removed-new : (now : ℕ) (id : String) (t : Tracker) → is_tracked now id (remove id t) ≡ false
unfolding is_tracked remove is_before
removed-new now id t = rw (lookup-delete id id t.ids, eq_refl id) refl

of_detected :
    {A : Type 0} (phase : DriftReportPhase) (x y : A)
    → phase ≡ detected
    → elim phase as (λ _. A) [ detected ↦ x | resolved ↦ y ] ≡ x
of_detected detected x y p = refl
of_detected resolved x y p = absurd (resolved-ne-detected p)
  where
    resolved-ne-detected : resolved ≡ detected → ⊥
    resolved-ne-detected h = cc

module _ (net : Network) (count : ℤ) (report : DriftReport) (p : report.phase ≡ detected) where
  send-new :
      (now : ℕ) (s : SenderState net)
      → (track now report.id s.tracker).1 ≡ true
      → send net count now s report
        ≡ send_fresh net count (record s { tracker = (track now report.id s.tracker).0 }) report
  unfolding send
  send-new now s new = of_detected report.phase _ _ p ∙ rw new refl

  send-known :
      (later : ℕ) (s : SenderState net)
      → (track later report.id s.tracker).1 ≡ false
      → (send net count later s report).1 ≡ s
  unfolding send
  send-known later s known =
      ap (λ (x : Option String × SenderState net). x.1) (of_detected report.phase _ _ p)
      ∙ rw known (ap (λ t. record s { tracker = t }) (track-known later report.id s.tracker known))

  send_fresh-tracker : (s : SenderState net) → (send_fresh net count s report).1.tracker ≡ s.tracker
  unfolding send_fresh
  send_fresh-tracker s = elim (Result-cases (net.encode report)) [
    | inl (body, e) ↦ rw (e, send_fresh) refl
    | inr (why, e) ↦ rw (e, send_fresh) refl
  ]

at_least_one :
    (known : Bool) (a b : ℕ) → known ≡ false → (if known then 0 else 1) + a ≤ b → suc a ≤ b
at_least_one known a b new h = ground arith

-- Each number is less than the one at its place.
abbrev pub Grows : List ℕ → List ℕ → Type 0
Grows [] [] = Unit
Grows (x ∷ xs) (y ∷ ys) = (x < y) × Grows xs ys
Grows [] (y ∷ ys) = ⊥
Grows (x ∷ xs) [] = ⊥

module _ (n : Networks) where
  -- What `SendAsync` does after `MarkResolved`: it sends.
  abbrev resent : ℕ → DriftReport → Sender n → Sender n
  resent now report s = record s {
    state =
        (send_fresh (n.network s.config) s.config.retry_count
          (record s.state { tracker = (track now report.id (remove report.id s.state.tracker)).0 })
          report).1;
  }

  removed-track : (now : ℕ) (id : String) (t : Tracker) → (track now id (remove id t)).1 ≡ true
  removed-track now id t = (track_lem now now id id (remove id t)).0 ∙ ap not (removed-new now id t)

  send-resent :
      (now : ℕ) (report : DriftReport) (s : Sender n)
      → report.phase ≡ detected
      → send_async n now report (sender_mark_resolved n report.id s) ≡ resent now report s
  unfolding send_async sender_mark_resolved mark_resolved
  send-resent now report s p =
      ap (λ x. record s { state = x.1 })
        (send-new (n.network s.config) s.config.retry_count report p now
          (record s.state { tracker = remove report.id s.state.tracker })
          (removed-track now report.id s.state.tracker))

  send-repeated :
      (now later : ℕ) (report : DriftReport) (s : Sender n)
      → report.phase ≡ detected
      → later < now + s.state.tracker.ttl
      → send_async n later report (resent now report s) ≡ resent now report s
  unfolding send_async remove
  send-repeated now later report s p before =
      let net = n.network s.config in
      let start = remove report.id s.state.tracker in
      let tracked = record s.state { tracker = (track now report.id start).0 } in
      let held = send_fresh-tracker net s.config.retry_count report p tracked in
      let known : (track later report.id (track now report.id start).0).1 ≡ false =
        track-once now later report.id start (track now report.id start).0
          (removed-track now report.id s.state.tracker) done before in
      ap (λ x. record s { state = x })
        (send-known net s.config.retry_count report p later (resent now report s).state
          (ap (λ t. (track later report.id t).1) held ∙ known))

  -- The requests that the network of a sender has seen, by a count of them for each network.
  abbrev pub requests : ((c : SenderConfig) → (n.network c).Net → ℕ) → Sender n → ℕ
  requests sent s = sent s.config s.state.net

  module _ (sent : (c : SenderConfig) → (n.network c).Net → ℕ)
      (counts : (c : SenderConfig) → Counts (n.network c) (sent c))
      (created : (c : SenderConfig) → (n.network c).create ≡ none) where
    -- A sender that can send the report, with a retry count that is not negative, and whose tracker
    -- holds an identifier for long enough.
    abbrev pub CanSend : ℕ → ℕ → DriftReport → Sender n → Type 0
    CanSend now later report s =
        (later < now + s.state.tracker.ttl)
        × ((left : ℕ) × (s.config.retry_count ≡ pos left))
        × ((body : String) × ((n.network s.config).encode report ≡ ok body))

    sends :
        (now later : ℕ) (report : DriftReport) (s : Sender n)
        → report.phase ≡ detected
        → CanSend now later report s
        → requests sent s
          < requests sent (send_async n now report (sender_mark_resolved n report.id s))
    unfolding send_async sender_mark_resolved mark_resolved
    sends now later report s p (before, (left, count), (body, encoded)) =
        let start = record s.state { tracker = remove report.id s.state.tracker } in
        let once =
          send-sent (n.network s.config) (sent s.config) (counts s.config) (created s.config) left
            now start report body encoded in
        let fresh : is_duplicate now start.tracker report ≡ false =
          of_detected report.phase _ _ p ∙ removed-new now report.id s.state.tracker in
        rw count (at_least_one _ _ _ fresh once.0)

    -- A report of the phase "Detected", sent to all senders after its identifier was marked as
    -- resolved: every sender posts it at least once, and until the time to live of its tracker has
    -- passed, a second call leaves every sender as it is and posts nothing. The condition is that
    -- each sender has a retry count that is not negative, a URL for which a request can be built,
    -- and an encoding of the report.
    pub multi_send_async-repeated :
        (now later : ℕ) (report : DriftReport) (senders : List (Sender n))
        → report.phase ≡ detected
        → All
            (λ s.
              (later < now + s.state.tracker.ttl)
              × ((left : ℕ) × (s.config.retry_count ≡ pos left))
              × ((body : String) × ((n.network s.config).encode report ≡ ok body)))
            senders
        → let first = multi_send_async n now report (multi_mark_resolved n report.id senders) in
          Grows (map (requests sent) senders) (map (requests sent) first)
          × (multi_send_async n later report first ≡ first)
    unfolding multi_send_async multi_mark_resolved
    multi_send_async-repeated now later report [] p can = (tt, refl)
    multi_send_async-repeated now later report (s ∷ senders) p can =
        let (all_sent, again) = multi_send_async-repeated now later report senders p can.1 in
        let sent_once = send-resent now report s p in
        let once =
          ap (λ x. send_async n later report x) sent_once
          ∙ send-repeated now later report s p can.0.0
          ∙ sym sent_once in
        ((sends now later report s p can.0, all_sent), λ i. once i ∷ again i)
