-- ===== src/Alerts/Notify.antt =====
-- NotifierLoop of internal/alerts/notify.go over the alerts table: the queries of what is to be
-- delivered, a round, and the message of an alert. Whether the notifier, a mail server, accepts a
-- message is an argument, and so is which statement fails. The statements of a round read one time.
pub mod Marks
pub mod Mails
pub mod Settles
mod Tests
use sumpnet.Prelude.{
  ℕ, suc, ◌+◌, String, Bool, true, false, ◌&&◌, ◌||◌, List, [], ◌∷◌, ◌++◌, Option, none, some, ltb,
  leb, if◌then◌else◌, take,
}
use sumpnet.AlertCode.{AlertCode, AlertSeverity}
use sumpnet.Alerts.Table.{
  Alert, Table, Message, NotifyState, pending, sent, failed, state_eq, mark_raise_notification,
  mark_resolve_notification,
}

pub record Config : Type 0 where
  pub retry : ℕ
  pub max_attempts : ℕ

pub data NotifyEvent : Type 0 where
  is_raised is_resolved : NotifyEvent

-- Message: the body is the alert's message, with the reason where the alert was resolved.
pub record Mail : Type 0 where
  pub alert_id : ℕ
  pub event : NotifyEvent
  pub code : AlertCode
  pub severity : AlertSeverity
  pub device_id : String
  pub home_id : Option String
  pub at : ℕ
  pub body : Message
  pub reason : Option String

-- messageFor; the segment of the home, for the subject line, is left out.
unfoldable pub message_for : Alert → NotifyEvent → Mail
message_for a event =
    let raised : Mail = record {
      alert_id = a.id;
      event = event;
      code = a.code;
      severity = a.severity;
      device_id = a.device_id;
      home_id = a.home_id;
      at = a.raised_at;
      body = a.message;
      reason = none;
    } in
    elim event [
      | is_raised ↦ raised
      | is_resolved ↦ elim a.resolved_at [
        | none ↦ raised
        | some t ↦ record raised { at = t; reason = a.resolve_reason }
      ]
    ]

-- The condition of ListPendingRaiseNotifications.
abbrev pub is_due : Config → ℕ → NotifyState → ℕ → ℕ → Bool
is_due cfg now state attempts updated_at =
    state_eq state pending
    || (state_eq state failed
        && (ltb attempts cfg.max_attempts && ltb (updated_at + cfg.retry) now))

unfoldable pub raise_due : Config → ℕ → Alert → Bool
raise_due cfg now a = is_due cfg now a.notify_state a.notify_attempts a.updated_at

-- ... and of ListPendingResolveNotifications.
unfoldable pub resolve_due : Config → ℕ → Alert → Bool
resolve_due cfg now a = is_due cfg now a.resolve_notify_state a.resolve_notify_attempts a.updated_at

-- ORDER BY raised_at
unfoldable pub raised_before : Alert → Alert → Bool
raised_before a b = leb a.raised_at b.raised_at

abbrev pub nulls_last : Option ℕ → Option ℕ → Bool
nulls_last none none = true
nulls_last none (some u) = false
nulls_last (some t) none = true
nulls_last (some t) (some u) = leb t u

-- ORDER BY resolved_at, where a null comes last.
unfoldable pub resolved_before : Alert → Alert → Bool
resolved_before a b = nulls_last a.resolved_at b.resolved_at

-- Insertion into a list that is ordered.
unfoldable pub place : (Alert → Alert → Bool) → Alert → List Alert → List Alert
place before a [] = a ∷ []
place before a (b ∷ rows) =
    let rest = place before a rows in if before a b then a ∷ b ∷ rows else b ∷ rest

-- SELECT ... WHERE due ORDER BY before
unfoldable pub select_by : (Alert → Bool) → (Alert → Alert → Bool) → List Alert → List Alert
select_by due before [] = []
select_by due before (a ∷ rows) =
    let rest = select_by due before rows in if due a then place before a rest else rest

-- The notifications that a round delivers at most of each kind: LIMIT 100.
abbrev pub round_limit : ℕ
round_limit = 100

unfoldable pub pending_raises : Config → ℕ → Table → List Alert
pending_raises cfg now t = take round_limit (select_by (raise_due cfg now) raised_before t.rows)

unfoldable pub pending_resolves : Config → ℕ → Table → List Alert
pending_resolves cfg now t =
    take round_limit (select_by (resolve_due cfg now) resolved_before t.rows)

-- What fails of the statements of a round, if anything; a mark by the alert's id.
pub record Faults (E : Type 0) : Type 0 where
  pub list_raises : Option E
  pub mark_raise : ℕ → Option E
  pub list_resolves : Option E
  pub mark_resolve : ℕ → Option E

-- The table, and the mails that were handed to the notifier, the first one first.
pub record Mailing : Type 0 where
  pub table : Table
  pub handed : List Mail

abbrev pub outcome : (Mail → Bool) → Mail → NotifyState
outcome accepts m = if accepts m then sent else failed

-- deliver
unfoldable pub deliver : (Mail → Bool) → Mail → Mailing → Mailing × NotifyState
deliver accepts m n = (record n { handed = n.handed ++ m ∷ [] }, outcome accepts m)

-- Where a statement fails the round ends with its error, and keeps the marks made so far.
abbrev pub stop_on : {E : Type 0} → Option E → Mailing → Mailing × Option E → Mailing × Option E
stop_on none n next = next
stop_on (some e) n next = (n, some e)

module _ {E : Type 0} (accepts : Mail → Bool) (faults : Faults E) (now : ℕ) where
  -- The loop over the raises: what it leaves and the error that ended it, if any.
  unfoldable pub mark_raises : List Alert → Mailing → Mailing × Option E
  mark_raises [] n = (n, none)
  mark_raises (a ∷ raises) n =
      let (n1, state) = deliver accepts (message_for a is_raised) n in
      stop_on (faults.mark_raise a.id) n1
        (mark_raises raises (record n1 { table = mark_raise_notification n1.table a.id state now }))

  -- ... and over the resolves.
  unfoldable pub mark_resolves : List Alert → Mailing → Mailing × Option E
  mark_resolves [] n = (n, none)
  mark_resolves (a ∷ resolves) n =
      let (n1, state) = deliver accepts (message_for a is_resolved) n in
      stop_on (faults.mark_resolve a.id) n1 (
        mark_resolves resolves
          (record n1 { table = mark_resolve_notification n1.table a.id state now }))

  unfoldable pub raises_round : Config → Mailing → Mailing × Option E
  raises_round cfg n = stop_on faults.list_raises n (mark_raises (pending_raises cfg now n.table) n)

  unfoldable pub resolves_round : Config → Mailing → Mailing × Option E
  resolves_round cfg n =
      stop_on faults.list_resolves n (mark_resolves (pending_resolves cfg now n.table) n)

  -- RunOnce: what it leaves and the error, if any; the resolves only after the raises went well.
  unfoldable pub run_once : Config → Mailing → Mailing × Option E
  run_once cfg n =
      let (n1, failure) = raises_round cfg n in stop_on failure n1 (resolves_round cfg n1)
