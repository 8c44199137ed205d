-- ===== src/Gateway/Watch/Follows.antt =====
-- A subscriber that keeps up has the current status of every segment that it watches.
use sumpnet.Prelude.{
  ℕ, ◌≡◌, refl, String, Bool, true, List, [], ◌∷◌, ◌++◌, Option, none, some, if◌then◌else◌, ◌∙◌,
  append_nil, ap,
}
use sumpnet.Gateway.Watch.{
  Update, Subscriber, Hub, Event, Alert, status_of, wants_segment, extra, changed, status_snapshot,
  snapshot, with_snapshot, send_next, publish, react, react_all, new_hub, round, subscribe,
  read_snapshot, send, leave, segments_of,
}
use sumpnet.Gateway.Watch.Stream.{
  stream, wanted, Grows, EverySub, fan_out-EverySub, EverySub-append, at_sub-EverySub,
  without-EverySub, sub_of, sub_of-EverySub, send_next-stream, SameSub, send_next-SameSub, if_keeps,
}
use sumpnet.Gateway.Watch.Latest.{
  latest, or_else, AreDistinctIds, latest-append, latest-round, news_current, captured_current,
  latest-snapshot,
}

-- In every round no two segments have the same id.
abbrev pub RoundsDistinct : {S Storm M : Type 0} → List (Event S Storm M) → Type 0
RoundsDistinct [] = Unit
RoundsDistinct (round clock statuses owners storms alerts ∷ events) =
    AreDistinctIds statuses × RoundsDistinct events
RoundsDistinct (subscribe subject ids snap ∷ events) = RoundsDistinct events
RoundsDistinct (read_snapshot n owners storms alerts ∷ events) = RoundsDistinct events
RoundsDistinct (send n ∷ events) = RoundsDistinct events
RoundsDistinct (leave n ∷ events) = RoundsDistinct events

split_rounds :
    {S Storm M : Type 0} (e : Event S Storm M) (events : List (Event S Storm M))
    → RoundsDistinct (e ∷ events)
    → RoundsDistinct (e ∷ []) × RoundsDistinct events
split_rounds (round clock entries owners storms alerts) events r = ((r.0, tt), r.1)
split_rounds (subscribe subject ids asks) events r = (tt, r)
split_rounds (read_snapshot n owners storms alerts) events r = (tt, r)
split_rounds (send n) events r = (tt, r)
split_rounds (leave n) events r = (tt, r)

or_else-some :
    {S : Type 0} (a b c : Option S) (st : S)
    → or_else a b ≡ some st
    → (b ≡ some st → c ≡ some st)
    → or_else a c ≡ some st
or_else-some none b c st h k = k h
or_else-some (some x) b c st h k = h

module _ {S Storm M : Type 0} where
  -- A subscriber that asked for the snapshot has the statuses of the entries.
  record IsCurrent (entries : List (String × S)) (s : Subscriber S Storm M) : Type 0 where
    current :
        (id : String) (st : S)
        → s.has_snapshot ≡ true
        → wants_segment s.segments id ≡ true
        → status_of entries id ≡ some st
        → latest id (stream s) ≡ some st

  module _ (equal : S → S → Bool) (sound : (a b : S) → equal a b ≡ true → a ≡ b) where
    round_keeps :
        (clock : ℕ) (old entries : List (String × S)) (owners : ℕ → List String)
        (storms : List (ℕ × Storm)) (alerts : List (Alert M)) (s s1 : Subscriber S Storm M)
        → AreDistinctIds entries
        → IsCurrent old s
        → Grows s s1 (
            wanted s.subject s.segments
              (changed equal clock old entries ++ extra owners storms alerts))
        → IsCurrent entries s1
    round_keeps clock old entries owners storms alerts s s1 distinct h g = record {
      current = λ id st asked wants e.
          let w : wants_segment s.segments id ≡ true = rw g.same_segments at wants in
          let a : s.has_snapshot ≡ true = rw g.same_request at asked in
          rw
            (
              g.grown,
              latest-append id (stream s) _,
              latest-round S Storm M id s.subject s.segments (changed equal clock old entries)
                  owners storms alerts,
            )
            (or_else-some _ (status_of old id) (latest id (stream s)) st
              (news_current Storm M equal clock old id s.subject s.segments entries st sound
                distinct w e)
              (λ k. h.current id st a w k));
    }

  carry :
      (entries : List (String × S)) (s s1 : Subscriber S Storm M)
      → SameSub s s1
      → ((id : String) → latest id (stream s1) ≡ latest id (stream s))
      → IsCurrent entries s
      → IsCurrent entries s1
  carry entries s s1 (same_subject, same_segments, same_request) same h = record {
    current = λ id st asked wants e.
        same id ∙ h.current id st (rw same_request at asked) (rw same_segments at wants) e;
  }

  send_keeps :
      (entries : List (String × S)) (s : Subscriber S Storm M)
      → IsCurrent entries s
      → IsCurrent entries (send_next s)
  send_keeps entries s h =
      carry entries s (send_next s) (send_next-SameSub s)
        (λ id. ap (latest id) (send_next-stream s)) h

  read_first :
      (id : String) (sent first channel more : List (Update S Storm M))
      → latest id more ≡ none
      → latest id (sent ++ ((first ++ more) ++ channel)) ≡ latest id (sent ++ (first ++ channel))
  read_first id sent first channel more h =
      rw
        (
          latest-append id sent ((first ++ more) ++ channel),
          latest-append id (first ++ more) channel,
          latest-append id first more,
          h,
          latest-append id sent (first ++ channel),
          latest-append id first channel,
        )
        refl

  snapshot_keeps :
      (entries : List (String × S)) (owners : ℕ → List String) (storms : List (ℕ × Storm))
      (alerts : List (Alert M)) (s : Subscriber S Storm M)
      → IsCurrent entries s
      → IsCurrent entries (with_snapshot owners storms alerts s)
  unfolding with_snapshot stream
  snapshot_keeps entries owners storms alerts s h =
      let more = snapshot owners storms alerts s in
      if_keeps (IsCurrent entries) s.has_snapshot (record s { first = s.first ++ more }) s
        (carry entries s (record s { first = s.first ++ more }) (refl, refl, refl)
          (λ id.
            read_first id s.sent s.first s.channel more
              (latest-snapshot S Storm M id owners s storms alerts))
          h)
        h

  subscribed :
      (clock n : ℕ) (entries : List (String × S)) (subject : String)
      (segments : Option (List String)) (asks : Bool)
      → AreDistinctIds entries
      → IsCurrent entries (record {
        id = n;
        subject = subject;
        segments = segments;
        has_snapshot = asks;
        first = if asks then status_snapshot clock segments entries else [];
        channel = [];
        sent = [];
      })
  unfolding stream
  subscribed clock n entries subject segments asks distinct = record {
    current = λ id st asked wants e.
        rw (asked, append_nil (status_snapshot {Storm = Storm} {M = M} clock segments entries))
          (captured_current Storm M clock segments id entries distinct wants ∙ e);
  }

  -- The hub's entries have distinct ids, and every subscriber is current.
  record IsFollowed (h : Hub S Storm M) : Type 0 where
    distinct : AreDistinctIds h.statuses
    followed : EverySub (IsCurrent h.statuses) h.subs

  module _ (equal : S → S → Bool) (sound : (a b : S) → equal a b ≡ true → a ≡ b) (buffer : ℕ) where
    react_keeps :
        (e : Event S Storm M) (h : Hub S Storm M)
        → RoundsDistinct (e ∷ [])
        → IsFollowed h
        → IsFollowed (react equal buffer e h)
    unfolding react publish
    react_keeps (round clock entries owners storms alerts) h r f = record {
      distinct = r.0;
      followed =
          fan_out-EverySub (IsCurrent h.statuses) (IsCurrent entries) buffer _
            (λ s s1 c g.
              round_keeps equal sound clock h.statuses entries owners storms alerts s s1 r.0 c g)
            h.subs f.followed;
    }
    react_keeps (subscribe subject ids asks) h r f = record {
      distinct = f.distinct;
      followed =
          EverySub-append (IsCurrent h.statuses) h.subs _ f.followed
            (subscribed h.clock h.next_id h.statuses subject (segments_of ids) asks f.distinct);
    }
    react_keeps (read_snapshot n owners storms alerts) h r f = record {
      distinct = f.distinct;
      followed =
          at_sub-EverySub (IsCurrent h.statuses) n (with_snapshot owners storms alerts)
            (snapshot_keeps h.statuses owners storms alerts) h.subs f.followed;
    }
    react_keeps (send n) h r f = record {
      distinct = f.distinct;
      followed =
          at_sub-EverySub (IsCurrent h.statuses) n send_next (send_keeps h.statuses) h.subs
            f.followed;
    }
    react_keeps (leave n) h r f = record {
      distinct = f.distinct;
      followed = without-EverySub (IsCurrent h.statuses) n h.subs f.followed;
    }

    react_all_keeps :
        (events : List (Event S Storm M)) (h : Hub S Storm M)
        → RoundsDistinct events
        → IsFollowed h
        → IsFollowed (react_all equal buffer events h)
    unfolding react_all
    react_all_keeps [] h r f = f
    react_all_keeps (e ∷ events) h r f =
        let (now, later) = split_rounds e events r in
        react_all_keeps events (react equal buffer e h) later (react_keeps e h now f)

    -- After any events of a new hub, where proto.Equal holds only of equal statuses and no two
    -- segments of a round have the same id, every subscriber that is still registered and asked for
    -- the snapshot has, sent or queued, the hub's current status of every segment that it watches as
    -- the last status of the segment.
    pub hub_follows :
        (events : List (Event S Storm M)) (n : ℕ) (s : Subscriber S Storm M) (id : String) (st : S)
        → RoundsDistinct events
        → sub_of n (react_all equal buffer events new_hub).subs ≡ some s
        → s.has_snapshot ≡ true
        → wants_segment s.segments id ≡ true
        → status_of (react_all equal buffer events new_hub).statuses id ≡ some st
        → latest id (stream s) ≡ some st
    unfolding AreDistinctIds
    hub_follows events n s id st r found asked wants e =
        let f = react_all_keeps events new_hub r (record { distinct = tt; followed = tt }) in
        let h = react_all equal buffer events new_hub in
        (sub_of-EverySub (IsCurrent h.statuses) n h.subs s f.followed found).current id st asked
          wants e
