-- ===== src/Alerts/Notify/Tests.antt =====
-- A round of the notifier over three alerts, and each property at it.
use sumpnet.Prelude.{ℕ, ◌≡◌, refl, Bool, List, [], ◌∷◌, none, arith, ltb}
use sumpnet.AlertCode.{float_high, critical}
use sumpnet.Alerts.Table.{
  Alert, Table, Message, NotifyState, pending, sent, failed, unneeded, node, row_key,
  mark_raise_notification, mark_resolve_notification, update_where,
}
use sumpnet.Alerts.Notify.{
  Config, Mail, Mailing, Faults, run_once, raises_round, resolves_round, mark_raises, mark_resolves,
  pending_raises, pending_resolves, select_by, place, raise_due, resolve_due, raised_before,
  resolved_before, deliver, message_for,
}
use sumpnet.Alerts.Notify.Settles.{Settled, run_once-Settled}

abbrev alert_with : ℕ → ℕ → NotifyState → ℕ → Alert
alert_with id raised state attempts = record {
  id = id;
  device_id = "70b3d57ed0000001";
  home_id = none;
  code = float_high;
  severity = critical;
  raised_at = raised;
  last_seen_at = raised;
  occurrences = 1;
  acked_at = none;
  ack_note = none;
  resolved_at = none;
  resolve_reason = none;
  message = Message.float_active 7;
  source = node;
  trigger_key = row_key "alarm_events" "70b3d57ed0000001" raised 7;
  notify_state = state;
  notify_attempts = attempts;
  notified_at = none;
  resolve_notify_state = unneeded;
  resolve_notify_attempts = 0;
  updated_at = 50;
}

-- One alert waits, one failed and may be tried again, one failed for good.
abbrev three : Table
three = record {
  rows = alert_with 0 30 pending 0 ∷ alert_with 1 20 failed 1 ∷ alert_with 2 10 failed 5 ∷ [];
  next_id = 3;
}

abbrev begun : Mailing
begun = record { table = three; handed = [] }

abbrev cfg : Config
cfg = record { retry = 300; max_attempts = 5 }

-- The mail server accepts the message of the alert that was raised at 20.
abbrev accepts : Mail → Bool
accepts m = ltb m.at 25

abbrev no_faults : Faults ℕ
no_faults = record {
  list_raises = none;
  mark_raise = λ id. none;
  list_resolves = none;
  mark_resolve = λ id. none;
}

abbrev states : List Alert → List NotifyState
states [] = []
states (a ∷ rows) = a.notify_state ∷ states rows

abbrev ids_of : List Alert → List ℕ
ids_of [] = []
ids_of (a ∷ rows) = a.id ∷ ids_of rows

-- The older alert goes first.
order : ids_of (pending_raises cfg 1000 three) ≡ 1 ∷ 0 ∷ []
unfolding pending_raises select_by place raise_due raised_before
order = refl

round_states :
    states (run_once accepts no_faults 1000 cfg begun).0.table.rows ≡ failed ∷ sent ∷ failed ∷ []
unfolding run_once raises_round resolves_round mark_raises mark_resolves pending_raises
    pending_resolves select_by place raise_due resolve_due raised_before resolved_before deliver
    message_for mark_raise_notification mark_resolve_notification update_where
round_states = refl

round_ends : (run_once accepts no_faults 1000 cfg begun).1 ≡ none
unfolding run_once raises_round resolves_round mark_raises mark_resolves pending_raises
    pending_resolves select_by place raise_due resolve_due raised_before resolved_before deliver
    message_for mark_raise_notification mark_resolve_notification update_where
round_ends = refl

run_once-Settled_example :
    Settled accepts no_faults 1000 cfg begun (run_once accepts no_faults 1000 cfg begun).0
unfolding select_by place raise_due resolve_due raised_before resolved_before message_for
run_once-Settled_example =
    run_once-Settled accepts no_faults 1000 cfg begun
      (
        ((λ e. absurd (omega arith)), ((λ e. absurd (omega arith)), tt)),
        (((λ e. absurd (omega arith)), tt), (tt, tt)),
      )
      (omega arith) (omega arith) round_ends
