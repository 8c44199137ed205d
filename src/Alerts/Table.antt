-- ===== src/Alerts/Table.antt =====
-- The alerts table with the queries of internal/store/sqlcgen/alerts.sql.go. The uuid of a row is a
-- number drawn from a counter, so that ids are fresh, and `now` is the database's clock. What a
-- message is formatted from stands in its constructor. The columns' CHECK clauses are left out:
-- the code 0, which they refuse, comes neither from a node's alarm nor from a stored detection.
pub mod Rows
pub mod Invariant
pub mod Insert
pub mod Frame
pub use Rows.*
use text.Mathlib.Text.{◌==◌ as str_eq}
use sumpnet.Prelude.{
  ℕ, zero, suc, ◌+◌, ◌-◌, String, Bool, true, false, not, ◌&&◌, ◌||◌, List, [], ◌∷◌, ◌++◌, Option,
  none, some, ltb, leb, ◌==◌, if◌then◌else◌, min, max,
}
use sumpnet.Prelude.Result.{Result, ok, err}
use sumpnet.AlertCode.{AlertCode, AlertSeverity, code_eq}

abbrev pub state_number : NotifyState → ℕ
state_number unneeded = 0
state_number pending = 1
state_number sent = 2
state_number suppressed = 3
state_number failed = 4

abbrev pub state_eq : NotifyState → NotifyState → Bool
state_eq a b = state_number a == state_number b

abbrev pub is_none {ℓ} : {A : Type ℓ} → Option A → Bool
is_none none = true
is_none (some a) = false

-- device_id = dev AND code = code
abbrev pub matches : String → AlertCode → Alert → Bool
matches dev code a = str_eq a.device_id dev && code_eq a.code code

-- ... AND resolved_at IS NULL
abbrev pub is_open_for : String → AlertCode → Alert → Bool
is_open_for dev code a = matches dev code a && is_none a.resolved_at

-- UPDATE alerts SET f WHERE p
unfoldable pub update_where : (Alert → Bool) → (Alert → Alert) → List Alert → List Alert
update_where p f [] = []
update_where p f (a ∷ rows) = (if p a then f a else a) ∷ update_where p f rows

-- The first row that a query with the condition p returns.
unfoldable pub find_where : (Alert → Bool) → List Alert → Option Alert
find_where p [] = none
find_where p (a ∷ rows) = if p a then some a else find_where p rows

-- GetOpenAlert
unfoldable pub get_open_alert : Table → String → AlertCode → Option Alert
get_open_alert t dev code = find_where (is_open_for dev code) t.rows

abbrev pub new_alert : Table → InsertParams → ℕ → Alert
new_alert t p now = record {
  id = t.next_id;
  device_id = p.device_id;
  home_id = p.home_id;
  code = p.code;
  severity = p.severity;
  raised_at = p.raised_at;
  last_seen_at = p.raised_at;
  occurrences = 1;
  acked_at = none;
  ack_note = none;
  resolved_at = none;
  resolve_reason = none;
  message = p.message;
  source = p.source;
  trigger_key = p.trigger_key;
  notify_state = p.notify_state;
  notify_attempts = 0;
  notified_at = none;
  resolve_notify_state = unneeded;
  resolve_notify_attempts = 0;
  updated_at = now;
}

-- InsertAlert; the index alerts_open_uniq admits one open row for a device and a code.
unfoldable pub insert_alert : Table → InsertParams → ℕ → Result TableError Table
insert_alert t p now = elim (find_where (is_open_for p.device_id p.code) t.rows) [
  | some a ↦ err unique_violation
  | none ↦ ok (record { rows = t.rows ++ new_alert t p now ∷ []; next_id = t.next_id + 1 })
]

abbrev pub touched : ℕ → ℕ → Alert → Alert
touched seen_at now a = record a {
  raised_at = min a.raised_at seen_at;
  last_seen_at = max a.last_seen_at seen_at;
  occurrences = a.occurrences + 1;
  updated_at = now;
}

-- TouchAlert
unfoldable pub touch_alert : Table → ℕ → ℕ → ℕ → Table
touch_alert t id seen_at now = record t {
  rows = update_where (λ a. a.id == id) (touched seen_at now) t.rows;
}

abbrev pub resolvable : String → AlertCode → ℕ → Alert → Bool
resolvable dev code at a = is_open_for dev code a && leb a.raised_at at

abbrev pub resolved : ℕ → String → Bool → ℕ → Alert → Alert
resolved at reason notify now a = record a {
  resolved_at = some at;
  resolve_reason = some reason;
  resolve_notify_state =
      if notify && (state_eq a.notify_state sent || state_eq a.notify_state pending)
      then pending
      else unneeded;
  updated_at = now;
}

-- ResolveOpenAlert: the new table and the row that was resolved, if any.
unfoldable pub resolve_open_alert :
    Table → String → AlertCode → ℕ → String → Bool → ℕ → Table × Option Alert
resolve_open_alert t dev code at reason notify now = (
  record t { rows = update_where (resolvable dev code at) (resolved at reason notify now) t.rows },
  elim (find_where (resolvable dev code at) t.rows) [
    | none ↦ none
    | some a ↦ some (resolved at reason notify now a)
  ],
)

abbrev pub later : Option ℕ → Option ℕ → Option ℕ
later none b = b
later (some a) none = some a
later (some a) (some b) = some (max a b)

-- LastNotifiedAt: the newest notified_at among the sent rows of the device and code.
unfoldable pub last_notified : String → AlertCode → List Alert → Option ℕ
last_notified dev code [] = none
last_notified dev code (a ∷ rows) =
    later (if matches dev code a && state_eq a.notify_state sent then a.notified_at else none)
      (last_notified dev code rows)

unfoldable pub last_notified_at : Table → String → AlertCode → Option ℕ
last_notified_at t dev code = last_notified dev code t.rows

abbrev pub first_of_two {ℓ} : {A : Type ℓ} → Option A → Option A → Option A
first_of_two none b = b
first_of_two (some a) b = some a

abbrev pub acknowledged : ℕ → Option String → ℕ → Alert → Alert
acknowledged at text now a = record a {
  acked_at = first_of_two a.acked_at (some at);
  ack_note = first_of_two a.ack_note text;
  updated_at = now;
}

-- AcknowledgeAlert: the first acknowledgement stays.
unfoldable pub acknowledge_alert : Table → ℕ → ℕ → Option String → ℕ → Table
acknowledge_alert t id at text now = record t {
  rows = update_where (λ a. a.id == id) (acknowledged at text now) t.rows;
}

abbrev pub raise_marked : NotifyState → ℕ → Alert → Alert
raise_marked state now a = record a {
  notify_state = state;
  notified_at = if state_eq state sent then some now else a.notified_at;
  notify_attempts = a.notify_attempts + 1;
  updated_at = now;
}

-- MarkRaiseNotification
unfoldable pub mark_raise_notification : Table → ℕ → NotifyState → ℕ → Table
mark_raise_notification t id state now = record t {
  rows = update_where (λ a. a.id == id) (raise_marked state now) t.rows;
}

abbrev pub resolve_marked : NotifyState → ℕ → Alert → Alert
resolve_marked state now a = record a {
  resolve_notify_state = state;
  resolve_notify_attempts = a.resolve_notify_attempts + 1;
  updated_at = now;
}

-- MarkResolveNotification
unfoldable pub mark_resolve_notification : Table → ℕ → NotifyState → ℕ → Table
mark_resolve_notification t id state now = record t {
  rows = update_where (λ a. a.id == id) (resolve_marked state now) t.rows;
}
