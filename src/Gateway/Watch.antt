-- ===== src/Gateway/Watch.antt =====
-- internal/gateway/watch.go: the hub that fans updates out to subscribers. Everything that the mutex
-- guards is one event; a subscriber's channel and what its goroutine has sent are lists. The map of
-- statuses is the list of its entries in the hub's order, as computeStatuses builds both.
-- proto.Equal, of a library, is the argument `equal`; the messages of storms and alerts are types.
-- What a home's owners are is asked of the database in each event.
pub mod Updates
pub mod Stream
pub mod Latest
pub mod Follows
pub mod Private
mod Tests
pub use Updates.*
use text.Mathlib.Text.{◌==◌ as str_eq}
use sumpnet.Prelude.{
  ℕ, suc, ◌+◌, String, Bool, true, false, not, ◌&&◌, ◌||◌, List, [], ◌∷◌, ◌++◌, Option, none, some,
  ltb, ◌==◌, if◌then◌else◌, length, map,
}

unfoldable pub contains : List String → String → Bool
contains [] x = false
contains (y ∷ ys) x = let rest = contains ys x in str_eq y x || rest

-- h.statuses[id]
unfoldable pub status_of : {S : Type 0} → List (String × S) → String → Option S
status_of [] id = none
status_of (e ∷ entries) id =
    let rest = status_of entries id in if str_eq e.0 id then some e.1 else rest

-- subscriber.wantsSegment
unfoldable pub wants_segment : Option (List String) → String → Bool
wants_segment none id = true
wants_segment (some ids) id = contains ids id

-- newSubscriber's set of segments.
abbrev pub segments_of : List String → Option (List String)
segments_of [] = none
segments_of (id ∷ ids) = some (id ∷ ids)

-- The owners of an alert's home; an alert without a home has none.
abbrev pub owners_of : (ℕ → List String) → Option ℕ → List String
owners_of owners none = []
owners_of owners (some home) = owners home

-- Is the status known and the same?
abbrev pub is_same : {S : Type 0} → (S → S → Bool) → Option S → S → Bool
is_same equal none st = false
is_same equal (some old) st = equal old st

module _ {S Storm M : Type 0} where
  -- subscriber.wants
  unfoldable pub wants_body : String → Option (List String) → List String → Body S Storm M → Bool
  wants_body subject segments owners (segment_status id st) = wants_segment segments id
  wants_body subject segments owners (storm_event e) = true
  wants_body subject segments owners (alert a) =
      not (str_eq subject "") && (contains owners subject && wants_segment segments a.segment)

  unfoldable pub wants : Subscriber S Storm M → Routed S Storm M → Bool
  wants s r = wants_body s.subject s.segments r.owners r.update.body

  -- statusUpdate
  abbrev pub status_update : ℕ → String → S → Update S Storm M
  status_update ts id st = record { ts = ts; body = segment_status id st }

  -- alertUpdate
  abbrev pub alert_update : Alert M → Update S Storm M
  alert_update a = record { ts = a.updated_at; body = alert a }

  -- stormUpdate
  abbrev pub storm_update : ℕ × Storm → Update S Storm M
  storm_update e = record { ts = e.0; body = storm_event e.1 }

  -- deliver: none where the queue is full and the subscriber's stream ends.
  unfoldable pub deliver :
      ℕ → Subscriber S Storm M → Update S Storm M → Option (Subscriber S Storm M)
  deliver buffer s u =
      if ltb (length s.channel) buffer
      then some (record s { channel = s.channel ++ u ∷ [] })
      else none

  -- The inner loop of publish, for one subscriber.
  unfoldable pub deliver_all :
      ℕ → List (Routed S Storm M) → Subscriber S Storm M → Option (Subscriber S Storm M)
  deliver_all buffer [] s = some s
  deliver_all buffer (r ∷ updates) s =
      if wants s r
      then (elim (deliver buffer s r.update) [
        | none ↦ none
        | some s1 ↦ deliver_all buffer updates s1
      ])
      else deliver_all buffer updates s

  abbrev pub keep :
      Option (Subscriber S Storm M) → List (Subscriber S Storm M) → List (Subscriber S Storm M)
  keep none subs = subs
  keep (some s) subs = s ∷ subs

  -- ... for all of them; those that fell behind are removed.
  unfoldable pub fan_out :
      ℕ → List (Routed S Storm M) → List (Subscriber S Storm M) → List (Subscriber S Storm M)
  fan_out buffer updates [] = []
  fan_out buffer updates (s ∷ subs) =
      keep (deliver_all buffer updates s) (fan_out buffer updates subs)

  -- The storms and alerts of a round: extra.
  unfoldable pub extra :
      (ℕ → List String) → List (ℕ × Storm) → List (Alert M) → List (Routed S Storm M)
  extra owners storms alerts =
      map (λ e. record { owners = []; update = storm_update e }) storms
      ++ map (λ a. record { owners = owners_of owners a.home; update = alert_update a }) alerts

  -- The snapshot of the statuses that Serve captures.
  unfoldable pub status_snapshot :
      ℕ → Option (List String) → List (String × S) → List (Update S Storm M)
  status_snapshot clock segments [] = []
  status_snapshot clock segments (e ∷ entries) =
      let rest = status_snapshot clock segments entries in
      if wants_segment segments e.0 then status_update clock e.0 e.1 ∷ rest else rest

  -- ListOwnerActiveAlerts with the filter by segment of snapshot.
  unfoldable pub owner_alerts :
      (ℕ → List String) → Subscriber S Storm M → List (Alert M) → List (Update S Storm M)
  owner_alerts owners s [] = []
  owner_alerts owners s (a ∷ alerts) =
      let rest = owner_alerts owners s alerts in
      if contains (owners_of owners a.home) s.subject && wants_segment s.segments a.segment
      then alert_update a ∷ rest
      else rest

  -- snapshot
  unfoldable pub snapshot :
      (ℕ → List String)
      → List (ℕ × Storm)
      → List (Alert M)
      → Subscriber S Storm M
      → List (Update S Storm M)
  snapshot owners storms alerts s =
      map storm_update storms ++ (if str_eq s.subject "" then [] else owner_alerts owners s alerts)

  -- ... joins what is sent first, where the subscriber asked for it.
  unfoldable pub with_snapshot :
      (ℕ → List String)
      → List (ℕ × Storm)
      → List (Alert M)
      → Subscriber S Storm M
      → Subscriber S Storm M
  with_snapshot owners storms alerts s =
      if s.has_snapshot then record s { first = s.first ++ snapshot owners storms alerts s } else s

  abbrev pub send_from :
      List (Update S Storm M)
      → List (Update S Storm M)
      → Subscriber S Storm M
      → Subscriber S Storm M
  send_from (u ∷ first) channel s = record s { first = first; sent = s.sent ++ u ∷ [] }
  send_from [] (u ∷ channel) s = record s { channel = channel; sent = s.sent ++ u ∷ [] }
  send_from [] [] s = s

  -- Serve hands its next update to send.
  unfoldable pub send_next : Subscriber S Storm M → Subscriber S Storm M
  send_next s = send_from s.first s.channel s

  -- The subscriber with the number n, changed.
  unfoldable pub at_sub :
      ℕ
      → (Subscriber S Storm M → Subscriber S Storm M)
      → List (Subscriber S Storm M)
      → List (Subscriber S Storm M)
  at_sub n f [] = []
  at_sub n f (s ∷ subs) = (if s.id == n then f s else s) ∷ at_sub n f subs

  unfoldable pub without : ℕ → List (Subscriber S Storm M) → List (Subscriber S Storm M)
  without n [] = []
  without n (s ∷ subs) = let rest = without n subs in if s.id == n then rest else s ∷ rest

  module _ (equal : S → S → Bool) where
    -- The statuses that publish finds changed.
    unfoldable pub changed : ℕ → List (String × S) → List (String × S) → List (Routed S Storm M)
    changed ts old [] = []
    changed ts old (e ∷ entries) =
        let rest = changed ts old entries in
        if is_same equal (status_of old e.0) e.1
        then rest
        else record { owners = []; update = status_update ts e.0 e.1 } ∷ rest

    -- publish
    unfoldable pub publish :
        ℕ → ℕ → List (String × S) → List (Routed S Storm M) → Hub S Storm M → Hub S Storm M
    publish buffer clock statuses more h = record h {
      subs = fan_out buffer (changed clock h.statuses statuses ++ more) h.subs;
      statuses = statuses;
      clock = clock;
    }

module _ {S Storm M : Type 0} (equal : S → S → Bool) (buffer : ℕ) where
  -- One event.
  unfoldable pub react : Event S Storm M → Hub S Storm M → Hub S Storm M
  react (round clock statuses owners storms alerts) h =
      publish equal buffer clock statuses (extra owners storms alerts) h
  react (subscribe subject ids send_snapshot) h = record h {
    subs =
        h.subs
        ++ record {
          id = h.next_id;
          subject = subject;
          segments = segments_of ids;
          has_snapshot = send_snapshot;
          first =
              if send_snapshot then status_snapshot h.clock (segments_of ids) h.statuses else [];
          channel = [];
          sent = [];
        }
          ∷ [];
    next_id = suc h.next_id;
  }
  react (read_snapshot n owners storms alerts) h = record h {
    subs = at_sub n (with_snapshot owners storms alerts) h.subs;
  }
  react (send n) h = record h { subs = at_sub n send_next h.subs }
  react (leave n) h = record h { subs = without n h.subs }

  unfoldable pub react_all : List (Event S Storm M) → Hub S Storm M → Hub S Storm M
  react_all [] h = h
  react_all (e ∷ events) h = react_all events (react e h)

-- NewHub
abbrev pub new_hub : {S Storm M : Type 0} → Hub S Storm M
new_hub = record { subs = []; statuses = []; clock = 0; next_id = 0 }
