-- ===== src/Callback/Sender.antt =====
-- pkg/callback/sender.go: sending a report with retries. The network is a
-- parameter: `post` is the HTTP request with the body, and `pause` the wait between attempts, which
-- ends with an error where the context is done. `create` is the error of a request that cannot be
-- built, which depends on the sender's URL alone.
use Prim.Native.String.{◌++◌}
use kausality.Base.{
  String, ℕ, zero, suc, ℤ, pos, negsuc, leb, ltb, Bool, not, ◌||◌, ◌==◌, if◌then◌else◌, Option,
  none, some, Result, ok, err,
}
use kausality.Base.Digits.{format_int}
use kausality.Callback.Reports.{DriftReport, detected, resolved}
use kausality.Callback.Tracker.{Tracker, track, remove}

-- An answer: the status code, and the body if it could be read.
pub record HttpResponse : Type 0 where
  pub status : ℕ
  pub body : Result String

pub record DriftReportResponse : Type 0 where
  pub acknowledged : Bool
  pub error : String

pub record Network : Type 1 where
  pub Net : Type 0
  pub create : Option String
  pub post : Net → String → Result HttpResponse × Net
  pub pause : Net → Option String × Net
  pub encode : DriftReport → Result String
  pub decode : String → Result DriftReportResponse

-- The answer of `doSend` on the response; `none` is success. A body that cannot be parsed counts as
-- one.
unfoldable pub judge_body : (String → Result DriftReportResponse) → String → Option String
judge_body decode body = elim (decode body) [
  | err e ↦ none
  | ok response ↦
      if not response.acknowledged
      then some ("webhook did not acknowledge: " ++ response.error)
      else none
]

unfoldable pub judge_response :
    (String → Result DriftReportResponse) → Result HttpResponse → Option String
unfolding judge_body format_int
judge_response decode (err e) = some ("request failed: " ++ e)
judge_response decode (ok response) = elim response.body [
  | err e ↦ some ("failed to read response body: " ++ e)
  | ok body ↦
      if ltb response.status 200 || leb 300 response.status
      then some ("webhook returned status " ++ (format_int (pos response.status) ++ (": " ++ body)))
      else judge_body decode body
]

-- `RetryCount`, an int: the number of attempts of the loop.
unfoldable pub attempts : ℤ → ℕ
attempts (pos n) = suc n
attempts (negsuc n) = 0

-- `NewSender`: a count of 0 stands for 3.
unfoldable pub filled_retry_count : ℤ → ℤ
filled_retry_count (pos zero) = pos 3
filled_retry_count (pos (suc n)) = pos (suc n)
filled_retry_count (negsuc n) = negsuc n

module _ (n : Network) where
  open n use {Net, create, post, pause, encode, decode}

  unfoldable pub do_send : Net → String → Option String × Net
  unfolding judge_response
  do_send w body =
      let (answer, w') = post w body in
      elim create [
        | some e ↦ (some ("failed to create request: " ++ e), w)
        | none ↦ (judge_response decode answer, w')
      ]

  -- The attempts behind the first one; `last` is the last error.
  unfoldable pub retry : ℕ → Net → String → Option String → Option String × Net
  unfolding do_send
  retry zero w body last = (last, w)
  retry (suc left) w body last =
      let (stop, w1) = pause w in
      let (error, w2) = do_send w1 body in
      let rest = retry left w2 body error in
      elim stop [ some e ↦ (some e, w1) | none ↦ elim error [ none ↦ (none, w2) | some e ↦ rest ] ]

  -- The loop of `Send` over `count` attempts; the first one does not wait.
  unfoldable pub send_loop : ℕ → Net → String → Option String × Net
  unfolding do_send retry
  send_loop zero w body = (none, w)
  send_loop (suc left) w body =
      let (error, w') = do_send w body in
      let rest = retry left w' body error in elim error [ none ↦ (none, w') | some e ↦ rest ]

  -- The state of a sender.
  pub record SenderState : Type 0 where
    pub tracker : Tracker
    pub net : Net

  -- `Send` behind the check for a duplicate.
  unfoldable pub send_fresh : ℤ → SenderState → DriftReport → Option String × SenderState
  unfolding send_loop attempts
  send_fresh retry_count s report = elim (encode report) [
    | err e ↦ (some ("failed to marshal drift report: " ++ e), s)
    | ok body ↦
        let (error, w) = send_loop (attempts retry_count) s.net body in
        (error, record s { net = w })
  ]

  -- `Send`: only a report of the phase "Detected" is tracked.
  unfoldable pub send : ℤ → ℕ → SenderState → DriftReport → Option String × SenderState
  unfolding track send_fresh
  send retry_count now s report =
      let (tracker, new) = track now report.id s.tracker in
      let tracked = record s { tracker = tracker } in
      elim report.phase [
        | detected ↦ if not new then (none, tracked) else send_fresh retry_count tracked report
        | resolved ↦ send_fresh retry_count s report
      ]

  unfoldable pub mark_resolved : SenderState → String → SenderState
  unfolding remove
  mark_resolved s id = record s { tracker = remove id s.tracker }

unfoldable pub is_enabled : String → Bool
is_enabled url = not (url == "")
