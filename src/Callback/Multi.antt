-- ===== src/Callback/Multi.antt =====
-- pkg/callback/sender.go and multi_sender.go: the construction of senders, and reports to all of
-- them. `SendAsync` starts a goroutine for each sender, which touches the state of that sender
-- alone; the files of the certificates and the network of each sender are parameters.
use Prim.Native.String.{◌++◌}
use kausality.Base.{
  String, ℕ, zero, suc, ℤ, pos, negsuc, Bool, ltb, ◌==◌, if◌then◌else◌, List, [], ◌∷◌, map, length,
  is_empty, Option, none, some, Result, ok, err, ◌>>=◌,
}
use kausality.Callback.Reports.{DriftReport}
use kausality.Callback.Tracker.{Tracker}
use kausality.Callback.Sender.{Network, SenderState, filled_retry_count, send, mark_resolved}

-- Durations and times are in nanoseconds.
abbrev pub default_ttl : ℕ
default_ttl = 600000000000

abbrev pub new_tracker : Tracker
new_tracker = record { ids = []; ttl = default_ttl }

pub record SenderConfig : Type 0 where
  pub url : String
  pub ca_file : String
  pub timeout : ℤ
  pub retry_count : ℤ
  pub retry_interval : ℤ

-- `os.ReadFile`, and whether a text holds certificates.
pub record Files : Type 0 where
  pub read_file : String → Result String
  pub has_certificates : String → Bool

unfoldable pub filled_duration : ℕ → ℤ → ℤ
filled_duration default (pos zero) = pos default
filled_duration default (pos (suc n)) = pos (suc n)
filled_duration default (negsuc n) = negsuc n

unfoldable pub with_defaults : SenderConfig → SenderConfig
unfolding filled_retry_count filled_duration
with_defaults c = record {
  url = c.url;
  ca_file = c.ca_file;
  timeout = filled_duration 10000000000 c.timeout;
  retry_count = filled_retry_count c.retry_count;
  retry_interval = filled_duration 1000000000 c.retry_interval;
}

-- `NewSender`: the configuration of the sender.
unfoldable pub new_sender : Files → SenderConfig → Result SenderConfig
unfolding with_defaults
new_sender files c =
    let filled = with_defaults c in
    if c.ca_file == "" then ok filled else elim (files.read_file c.ca_file) [
      | err e ↦ err ("failed to read CA file: " ++ e)
      | ok text ↦
          if files.has_certificates text then ok filled else err "failed to parse CA certificate"
    ]

-- The network of a sender by its configuration, and its state when the sender is made.
pub record Networks : Type 1 where
  pub network : SenderConfig → Network
  pub start : (c : SenderConfig) → (network c).Net

module _ (n : Networks) where
  pub record Sender : Type 0 where
    pub config : SenderConfig
    pub state : SenderState (n.network config)

  abbrev pub fresh_sender : SenderConfig → Sender
  fresh_sender c = record { config = c; state = record { tracker = new_tracker; net = n.start c } }

  -- The loop of `NewMultiSender`.
  unfoldable pub open_senders : Files → List SenderConfig → Result (List Sender)
  unfolding new_sender
  open_senders files [] = ok []
  open_senders files (c ∷ configs) =
      let rest = open_senders files configs in
      if c.url == ""
      then rest
      else new_sender files c >>= λ filled. rest >>= λ senders. ok (fresh_sender filled ∷ senders)

  unfoldable pub new_multi_sender : Files → List SenderConfig → Result (Option (List Sender))
  unfolding open_senders
  new_multi_sender files configs =
      open_senders files configs >>= λ senders. ok (if is_empty senders then none else some senders)

  -- The goroutine of `Sender.SendAsync`; the error is only logged.
  unfoldable pub send_async : ℕ → DriftReport → Sender → Sender
  unfolding send
  send_async now report s = record s {
    state = (send (n.network s.config) s.config.retry_count now s.state report).1;
  }

  unfoldable pub multi_send_async : ℕ → DriftReport → List Sender → List Sender
  unfolding send_async
  multi_send_async now report senders = map (λ s. send_async now report s) senders

  unfoldable pub sender_mark_resolved : String → Sender → Sender
  unfolding mark_resolved
  sender_mark_resolved id s = record s { state = mark_resolved (n.network s.config) s.state id }

  unfoldable pub multi_mark_resolved : String → List Sender → List Sender
  unfolding sender_mark_resolved
  multi_mark_resolved id senders = map (λ s. sender_mark_resolved id s) senders

  unfoldable pub multi_len : List Sender → ℕ
  multi_len senders = length senders

  unfoldable pub multi_is_enabled : List Sender → Bool
  multi_is_enabled senders = ltb 0 (length senders)
