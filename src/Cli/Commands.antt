-- ===== src/Cli/Commands.antt =====
-- cmd/kausality-cli/pkg/cli/model.go: the commands that bubbletea runs, with their messages. The
-- client, the codecs and the time are arguments; an action that fails leaves the cluster unchanged.
use kausality.Base.{String, ℕ, List, none, some, Result, ok, err}
use kausality.Kube.{Client, Codec}
use kausality.Approval.Types.{Approval}
use kausality.Approval.Rejections.{Rejection}
use kausality.Approval.Notices.{Snooze}
use kausality.Cli.Items.{DriftItem, approve_once, approve_generation, ignore, freeze, snooze}
use kausality.Cli.Model.{
  Action, do_approve_once, do_approve_generation, do_ignore, do_freeze, do_snooze, Msg, action_done,
}

unfoldable pub action_name : Action → String
action_name do_approve_once = "approve once"
action_name do_approve_generation = "approve generation"
action_name do_ignore = "ignore"
action_name do_freeze = "freeze"
action_name do_snooze = "snooze 1h"

-- `1*time.Hour` in nanoseconds.
abbrev one_hour : ℕ
one_hour = 3600000000000

-- The message, and the cluster.
unfoldable pub report : {Key World : Type 0} → String → World → Result World → Msg Key × World
report name before (ok w) = (action_done name none, w)
report name before (err e) = (action_done name (some e), before)

module _ (c : Client) (approvals : Codec (List Approval)) (rejections : Codec (List Rejection))
    (snoozes : Codec Snooze) where
  unfoldable pub perform : Action → ℕ → c.World → DriftItem → Result c.World
  unfolding approve_once approve_generation ignore freeze snooze
  perform do_approve_once now w item = approve_once c approvals w item
  perform do_approve_generation now w item = approve_generation c approvals w item
  perform do_ignore now w item = ignore c approvals w item
  perform do_freeze now w item = freeze c rejections w item "frozen via CLI"
  perform do_snooze now w item = snooze c snoozes now w item one_hour "" ""

  unfoldable pub run_action : {Key : Type 0} → Action → ℕ → c.World → DriftItem → Msg Key × c.World
  unfolding perform report action_name
  run_action action now w item = report (action_name action) w (perform action now w item)
