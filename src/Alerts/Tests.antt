-- ===== src/Alerts/Tests.antt =====
-- The theorems on the alerts service, applied to a home whose mains go and come back.
use sumpnet.Prelude.{
  ℕ, ◌≡◌, ◌↔◌, refl, String, Bool, true, [], ◌∷◌, Option, none, some, arith, ◌==◌,
}
use sumpnet.Prelude.Maps.{update}
use sumpnet.Prelude.Result.{Result, ok, err}
use sumpnet.AlertCode.{mains_lost, float_high, severity}
use sumpnet.Alerts.Table.{
  Source, Message, TriggerKey, row_key, sent, pending, Alert, get_open_alert, find_where,
  mark_raise_notification, insert_alert, last_notified_at, last_notified, update_where,
  resolve_open_alert, unneeded,
}
use sumpnet.Alerts.Table.Invariant.{IsConsistent, count_open, count_where}
use sumpnet.Alerts.Table.Frame.{rows_of}
use sumpnet.Alerts.Engine.{
  default_config, State, Clock, HomeRow, Error, raise, resolve, home_of, initial_state, row_entry,
}
use sumpnet.Alerts.Engine.Lifecycle.{OpenAt, raise_opens}
use sumpnet.Alerts.Engine.Resolution.{Resolution, resolve-Resolution}
use sumpnet.Alerts.Engine.Isolation.{raise-resolve_isolated}
use sumpnet.Alerts.Engine.Notified.{StaysQuiet, raise_after_sent}

abbrev home_device : String
home_device = "70b3d57ed0000001"

abbrev unknown_home : String → Result ℕ (Option HomeRow)
unknown_home dev = ok none

abbrev empty_state : State
empty_state = record { homes = λ dev. none; table = record { rows = []; next_id = 0 } }

abbrev noon : Clock
noon = record { now = 1000; db_now = 1001 }

abbrev key : TriggerKey
key = row_key "readings" home_device 900 7

abbrev first_alert : Alert
first_alert = record {
  id = 0;
  device_id = home_device;
  home_id = none;
  code = mains_lost;
  severity = severity mains_lost;
  raised_at = 900;
  last_seen_at = 900;
  occurrences = 1;
  acked_at = none;
  ack_note = none;
  resolved_at = none;
  resolve_reason = none;
  message = Message.mains_lost;
  source = Source.heartbeat;
  trigger_key = key;
  notify_state = pending;
  notify_attempts = 0;
  notified_at = none;
  resolve_notify_state = unneeded;
  resolve_notify_attempts = 0;
  updated_at = 1001;
}

abbrev raised_state : State
raised_state = record {
  homes = update (λ dev. none) home_device (some (row_entry none 1000));
  table = record { rows = first_alert ∷ []; next_id = 1 };
}

empty_IsConsistent : IsConsistent empty_state.table
unfolding count_open count_where
empty_IsConsistent = record {
  one_open = λ dev code. omega arith;
  below = tt;
  distinct = tt;
  rows = tt;
}

raise_first :
    raise unknown_home default_config noon empty_state home_device mains_lost 900 Source.heartbeat
      key Message.mains_lost
    ≡ ok (raised_state, true)
unfolding raise home_of initial_state last_notified_at last_notified insert_alert get_open_alert
    find_where
raise_first = refl

raise_opens_example :
    IsConsistent raised_state.table
    × OpenAt raised_state.table home_device mains_lost 900
    × ((true ≡ true) ↔ (get_open_alert empty_state.table home_device mains_lost ≡ none))
raise_opens_example =
    raise_opens unknown_home default_config noon empty_state raised_state home_device mains_lost 900
      Source.heartbeat key Message.mains_lost true empty_IsConsistent raise_first

raised_IsConsistent : IsConsistent raised_state.table
raised_IsConsistent = raise_opens_example.0

resolve-Resolution_example :
    let (s', done) =
      resolve default_config noon raised_state home_device mains_lost 990 "mains_ok" in
    IsConsistent s'.table × Resolution raised_state.table home_device mains_lost 990 s'.table done
resolve-Resolution_example =
    resolve-Resolution default_config noon raised_state home_device mains_lost 990 "mains_ok"
      raised_IsConsistent

raise-resolve_isolated_example :
    (rows_of home_device float_high raised_state.table.rows
      ≡ rows_of home_device float_high empty_state.table.rows)
    × (rows_of home_device float_high
          (resolve default_config noon empty_state home_device mains_lost 900
            "mains_ok").0.table.rows
        ≡ rows_of home_device float_high empty_state.table.rows)
raise-resolve_isolated_example =
    raise-resolve_isolated unknown_home default_config noon empty_state raised_state home_device
      mains_lost 900 Source.heartbeat key "mains_ok" Message.mains_lost true home_device float_high
      empty_IsConsistent refl raise_first

-- The state after the notification was sent at 1500 and the mains came back at 1600.
abbrev quiet_clock : Clock
quiet_clock = record { now = 2000; db_now = 2001 }

abbrev resolved_state : State
resolved_state =
    (resolve default_config noon
      (record raised_state { table = mark_raise_notification raised_state.table 0 sent 1500 })
      home_device mains_lost 1600 "mains_ok").0

abbrev state_or : Result (Error ℕ) (State × Bool) → State → State
state_or (ok (s, created)) other = s
state_or (err e) other = other

abbrev raised_again : State
raised_again =
    state_or
      (raise unknown_home default_config quiet_clock resolved_state home_device mains_lost 1900
        Source.heartbeat key Message.mains_lost)
      empty_state

raise_second :
    raise unknown_home default_config quiet_clock resolved_state home_device mains_lost 1900
      Source.heartbeat key Message.mains_lost
    ≡ ok (raised_again, true)
unfolding raise resolve home_of initial_state last_notified_at last_notified insert_alert
    get_open_alert find_where update_where resolve_open_alert mark_raise_notification
raise_second = refl

first_found : find_where (λ b. b.id == 0) raised_state.table.rows ≡ some first_alert
unfolding find_where
first_found = refl

raise_after_sent_example : StaysQuiet raised_again.table home_device mains_lost
raise_after_sent_example =
    raise_after_sent unknown_home default_config quiet_clock home_device mains_lost 1900
      Source.heartbeat key Message.mains_lost raised_state raised_again 0 1500 first_alert noon 1600
      "mains_ok" first_found refl (omega arith) raise_second
