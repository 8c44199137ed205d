-- ===== src/Gateway/Watch/Private.antt =====
-- Alerts reach only those who own the alert's home.
use text.Mathlib.Text.{◌==◌ as str_eq}
use sumpnet.Prelude.{
  ℕ, ◌≡◌, refl, String, Bool, true, false, not, ◌&&◌, List, [], ◌∷◌, ◌++◌, Option, none, some,
  if◌then◌else◌, Bool-cases, inl, inr, append_nil, map,
}
use sumpnet.Gateway.Watch.{
  Update, Routed, Subscriber, Hub, Event, Alert, Body, contains, wants_segment, wants_body, extra,
  changed, is_same, status_of, status_snapshot, snapshot, owner_alerts, with_snapshot, send_next,
  publish, react, react_all, new_hub, round, subscribe, read_snapshot, send, leave, segments_of,
  segment_status, storm_event, alert, owners_of, alert_update,
}
use sumpnet.Gateway.Watch.Stream.{
  stream, wanted, wanted-append, Grows, EverySub, fan_out-EverySub, EverySub-append,
  at_sub-EverySub, without-EverySub, sub_of, sub_of-EverySub, send_next-stream, send_next-SameSub,
  if_keeps,
}

and_parts : (a b : Bool) → (a && b) ≡ true → (a ≡ true) × (b ≡ true)
and_parts true b h = (refl, h)
and_parts false b h = cc

false_of_not : (b : Bool) → not b ≡ true → b ≡ false
false_of_not true h = cc
false_of_not false h = refl

module _ (Owns : String → ℕ → Type 0) where
  -- What the database says of owners is so.
  abbrev pub AreOwners : (ℕ → List String) → Type 0
  AreOwners owners =
      (subject : String) (home : ℕ) → contains (owners home) subject ≡ true → Owns subject home

  home_owned :
      (owners : ℕ → List String)
      → AreOwners owners
      → (subject : String) (home : Option ℕ) → contains (owners_of owners home) subject ≡ true
      → (n : ℕ) × (home ≡ some n) × Owns subject n
  unfolding contains
  home_owned owners h subject none k = cc
  home_owned owners h subject (some n) k = (n, refl, h subject n k)

module _ {S Storm M : Type 0} (Owns : String → ℕ → Type 0) where
  -- An alert's subscriber has a subject, which owns the alert's home; other updates are public.
  abbrev pub MayGet : String → Body S Storm M → Type 0
  MayGet subject (segment_status id st) = Unit
  MayGet subject (storm_event e) = Unit
  MayGet subject (alert a) =
      (str_eq subject "" ≡ false) × (home : ℕ) × (a.home ≡ some home) × Owns subject home

  abbrev pub MayGetAll : String → List (Update S Storm M) → Type 0
  MayGetAll subject [] = Unit
  MayGetAll subject (u ∷ updates) = MayGet subject u.body × MayGetAll subject updates

  MayGetAll-append :
      (subject : String) (xs ys : List (Update S Storm M))
      → MayGetAll subject xs
      → MayGetAll subject ys
      → MayGetAll subject (xs ++ ys)
  MayGetAll-append subject [] ys h k = k
  MayGetAll-append subject (u ∷ xs) ys h k = (h.0, MayGetAll-append subject xs ys h.1 k)

  MayGetAll-split :
      (subject : String) (xs ys : List (Update S Storm M))
      → MayGetAll subject (xs ++ ys)
      → MayGetAll subject xs × MayGetAll subject ys
  MayGetAll-split subject [] ys h = (tt, h)
  MayGetAll-split subject (u ∷ xs) ys h =
      let (hx, hy) = MayGetAll-split subject xs ys h.1 in ((h.0, hx), hy)

  -- What a subscriber wants of an update it may get.
  pub wanted-MayGetAll :
      (subject : String) (segments : Option (List String)) (r : Routed S Storm M)
      (updates : List (Routed S Storm M))
      → (wants_body subject segments r.owners r.update.body ≡ true → MayGet subject r.update.body)
      → MayGetAll subject (wanted subject segments updates)
      → MayGetAll subject (wanted subject segments (r ∷ updates))
  unfolding wanted
  wanted-MayGetAll subject segments r updates h k =
      elim (Bool-cases (wants_body subject segments r.owners r.update.body)) [
        | inl e ↦ rw e (h e, k)
        | inr e ↦ rw e k
      ]

module _ (S Storm M : Type 0) (Owns : String → ℕ → Type 0) (subject : String)
    (segments : Option (List String)) where
  alert_owned :
      (owners : ℕ → List String) (a : Alert M)
      → AreOwners Owns owners
      → wants_body {S = S} {Storm = Storm} subject segments (owners_of owners a.home) (alert a)
        ≡ true
      → MayGet {S = S} {Storm = Storm} Owns subject (alert a)
  unfolding wants_body
  alert_owned owners a h w =
      let (named, rest) = and_parts (not (str_eq subject "")) _ w in
      let (owned, watched) =
        and_parts (contains (owners_of owners a.home) subject) (wants_segment segments a.segment)
          rest in
      let (home, is_home, owns) = home_owned Owns owners h subject a.home owned in
      (false_of_not (str_eq subject "") named, home, is_home, owns)

  alerts_owned :
      (owners : ℕ → List String) (alerts : List (Alert M))
      → AreOwners Owns owners
      → MayGetAll Owns subject (
          wanted subject segments (
            map {B = Routed S Storm M}
              (λ a. record { owners = owners_of owners a.home; update = alert_update a })
              alerts))
  unfolding wanted
  alerts_owned owners [] h = tt
  alerts_owned owners (a ∷ alerts) h =
      wanted-MayGetAll Owns subject segments _ _ (alert_owned owners a h)
        (alerts_owned owners alerts h)

  extra_owned :
      (owners : ℕ → List String) (storms : List (ℕ × Storm)) (alerts : List (Alert M))
      → AreOwners Owns owners
      → MayGetAll Owns subject (wanted subject segments (extra {S = S} owners storms alerts))
  unfolding extra
  extra_owned owners [] alerts h = alerts_owned owners alerts h
  extra_owned owners (e ∷ storms) alerts h =
      wanted-MayGetAll Owns subject segments _ _ (λ w. tt) (extra_owned owners storms alerts h)

  changed_owned :
      (equal : S → S → Bool) (clock : ℕ) (old entries : List (String × S))
      → MayGetAll Owns subject
          (wanted subject segments (changed {Storm = Storm} {M = M} equal clock old entries))
  unfolding changed wanted
  changed_owned equal clock old [] = tt
  changed_owned equal clock old (e ∷ entries) =
      elim (Bool-cases (is_same equal (status_of old e.0) e.1)) [
        | inl d ↦ rw d (changed_owned equal clock old entries)
        | inr d ↦ rw d (
            wanted-MayGetAll Owns subject segments _ _ (λ w. tt)
              (changed_owned equal clock old entries))
      ]

  captured_owned :
      (clock : ℕ) (entries : List (String × S))
      → MayGetAll Owns subject (status_snapshot {Storm = Storm} {M = M} clock segments entries)
  unfolding status_snapshot
  captured_owned clock [] = tt
  captured_owned clock (e ∷ entries) =
      if_keeps (MayGetAll Owns subject) (wants_segment segments e.0) _ _
        (tt, captured_owned clock entries) (captured_owned clock entries)

module _ {S Storm M : Type 0} (Owns : String → ℕ → Type 0) where
  owner_alerts_owned :
      (owners : ℕ → List String) (s : Subscriber S Storm M) (alerts : List (Alert M))
      → AreOwners Owns owners
      → str_eq s.subject "" ≡ false
      → MayGetAll Owns s.subject (owner_alerts owners s alerts)
  unfolding owner_alerts
  owner_alerts_owned owners s [] h named = tt
  owner_alerts_owned owners s (a ∷ alerts) h named =
      let rest = owner_alerts_owned owners s alerts h named in
      elim (Bool-cases
        (contains (owners_of owners a.home) s.subject && wants_segment s.segments a.segment)) [
          | inl e ↦
              let (owned, watched) =
                and_parts (contains (owners_of owners a.home) s.subject)
                  (wants_segment s.segments a.segment) e in
              let (home, is_home, owns) = home_owned Owns owners h s.subject a.home owned in
              rw e ((named, home, is_home, owns), rest)
          | inr e ↦ rw e rest
        ]

  snapshot_owned :
      (owners : ℕ → List String) (storms : List (ℕ × Storm)) (alerts : List (Alert M))
      (s : Subscriber S Storm M)
      → AreOwners Owns owners
      → MayGetAll Owns s.subject (snapshot owners storms alerts s)
  unfolding snapshot
  snapshot_owned owners (e ∷ storms) alerts s h = (tt, snapshot_owned owners storms alerts s h)
  snapshot_owned owners [] alerts s h = elim (Bool-cases (str_eq s.subject "")) [
    | inl e ↦ rw e tt
    | inr e ↦ rw e (owner_alerts_owned owners s alerts h e)
  ]

  -- Every update to the subscriber is one that it may get.
  abbrev IsPrivate : Subscriber S Storm M → Type 0
  IsPrivate s = MayGetAll Owns s.subject (stream s)

  read_private :
      (subject : String) (sent first channel more : List (Update S Storm M))
      → MayGetAll Owns subject more
      → MayGetAll Owns subject (sent ++ (first ++ channel))
      → MayGetAll Owns subject (sent ++ ((first ++ more) ++ channel))
  read_private subject sent first channel more h k =
      let (hs, rest) = MayGetAll-split Owns subject sent (first ++ channel) k in
      let (hf, hc) = MayGetAll-split Owns subject first channel rest in
      MayGetAll-append Owns subject sent ((first ++ more) ++ channel) hs (
        MayGetAll-append Owns subject (first ++ more) channel
          (MayGetAll-append Owns subject first more hf h) hc)

  snapshot-IsPrivate :
      (owners : ℕ → List String) (storms : List (ℕ × Storm)) (alerts : List (Alert M))
      (s : Subscriber S Storm M)
      → AreOwners Owns owners
      → IsPrivate s
      → IsPrivate (with_snapshot owners storms alerts s)
  unfolding with_snapshot stream
  snapshot-IsPrivate owners storms alerts s h k =
      let more = snapshot owners storms alerts s in
      if_keeps IsPrivate s.has_snapshot (record s { first = s.first ++ more }) s
        (read_private s.subject s.sent s.first s.channel more
          (snapshot_owned owners storms alerts s h) k)
        k

  send-IsPrivate : (s : Subscriber S Storm M) → IsPrivate s → IsPrivate (send_next s)
  send-IsPrivate s h = rw (send_next-stream s, (send_next-SameSub s).0) h

  grown-IsPrivate :
      (s s1 : Subscriber S Storm M) (more : List (Update S Storm M))
      → MayGetAll Owns s.subject more
      → IsPrivate s
      → Grows s s1 more
      → IsPrivate s1
  grown-IsPrivate s s1 more h k g =
      rw (g.grown, g.same_subject) (MayGetAll-append Owns s.subject (stream s) more k h)

  -- The owners that every event reads from the database are owners.
  abbrev pub OwnersHold : List (Event S Storm M) → Type 0
  OwnersHold [] = Unit
  OwnersHold (round clock statuses owners storms alerts ∷ events) =
      AreOwners Owns owners × OwnersHold events
  OwnersHold (subscribe subject ids asks ∷ events) = OwnersHold events
  OwnersHold (read_snapshot n owners storms alerts ∷ events) =
      AreOwners Owns owners × OwnersHold events
  OwnersHold (send n ∷ events) = OwnersHold events
  OwnersHold (leave n ∷ events) = OwnersHold events

  module _ (equal : S → S → Bool) (buffer : ℕ) where
    all-IsPrivate :
        (events : List (Event S Storm M)) (h : Hub S Storm M)
        → OwnersHold events
        → EverySub IsPrivate h.subs
        → EverySub IsPrivate (react_all equal buffer events h).subs
    unfolding react_all react publish stream
    all-IsPrivate [] h o p = p
    all-IsPrivate (round clock entries owners storms alerts ∷ events) h o p =
        all-IsPrivate events _ o.1 (
          fan_out-EverySub IsPrivate IsPrivate buffer _
            (λ s s1 k g.
              grown-IsPrivate s s1 _
                (rw (wanted-append s.subject s.segments (changed equal clock h.statuses entries) _)
                  (MayGetAll-append Owns s.subject _ _
                    (changed_owned S Storm M Owns s.subject s.segments equal clock h.statuses
                      entries)
                    (extra_owned S Storm M Owns s.subject s.segments owners storms alerts o.0)))
                k g)
            h.subs p)
    all-IsPrivate (subscribe subject ids asks ∷ events) h o p = all-IsPrivate events _ o (
        EverySub-append IsPrivate h.subs _ p (
          rw
            (append_nil (if asks then status_snapshot h.clock (segments_of ids) h.statuses else []))
            (if_keeps (MayGetAll Owns subject) asks _ []
              (captured_owned S Storm M Owns subject (segments_of ids) h.clock h.statuses) tt)))
    all-IsPrivate (read_snapshot n owners storms alerts ∷ events) h o p =
        all-IsPrivate events _ o.1 (
          at_sub-EverySub IsPrivate n (with_snapshot owners storms alerts)
            (λ s k. snapshot-IsPrivate owners storms alerts s o.0 k) h.subs p)
    all-IsPrivate (send n ∷ events) h o p =
        all-IsPrivate events _ o (at_sub-EverySub IsPrivate n send_next send-IsPrivate h.subs p)
    all-IsPrivate (leave n ∷ events) h o p =
        all-IsPrivate events _ o (without-EverySub IsPrivate n h.subs p)

    -- After any events of a new hub, where the owners that its events read are owners, every alert
    -- sent to a registered subscriber or queued for it is of a home that the subscriber's subject
    -- owns, and the subject is not empty.
    pub hub_private :
        (events : List (Event S Storm M)) (n : ℕ) (s : Subscriber S Storm M)
        → OwnersHold events
        → sub_of n (react_all equal buffer events new_hub).subs ≡ some s
        → MayGetAll Owns s.subject (stream s)
    hub_private events n s o found =
        sub_of-EverySub IsPrivate n (react_all equal buffer events new_hub).subs s
          (all-IsPrivate events new_hub o tt) found
