-- ===== src/Gateway/Watch/Latest.antt =====
-- The last status of a segment among the updates of a round.
use text.Mathlib.Text.{◌==◌ as str_eq}
use text.Mathlib.TextEquality.{eq_iff}
use mathlib.Core.Option.{some-injective}
use sumpnet.Prelude.{
  ℕ, ◌≡◌, refl, String, Bool, true, false, ◌&&◌, List, [], ◌∷◌, ◌++◌, Option, none, some,
  if◌then◌else◌, Bool-cases, Option-cases, inl, inr, ◌∙◌, subst, map, ap,
}
use sumpnet.Prelude.Maps.{str_eq_refl}
use sumpnet.Gateway.Watch.{
  Update, Routed, Subscriber, Alert, Body, segment_status, storm_event, alert, status_of,
  wants_segment, wants_body, changed, is_same, extra, status_snapshot, owners_of, alert_update,
  owner_alerts, snapshot, contains,
}
use sumpnet.Gateway.Watch.Stream.{wanted, wanted-append}

abbrev pub or_else : {A : Type 0} → Option A → Option A → Option A
or_else none b = b
or_else (some a) b = some a

else_none : {S : Type 0} (o : Option S) → or_else o none ≡ o
else_none none = refl
else_none (some st) = refl

else_assoc : {S : Type 0} (a b c : Option S) → or_else (or_else a b) c ≡ or_else a (or_else b c)
else_assoc none b c = refl
else_assoc (some st) b c = refl

-- No two entries have the same id.
unfoldable pub AreDistinctIds : {S : Type 0} → List (String × S) → Type 0
AreDistinctIds [] = Unit
AreDistinctIds (e ∷ entries) = (status_of entries e.0 ≡ none) × AreDistinctIds entries

module _ {S Storm M : Type 0} where
  -- The status of a segment that an update carries.
  abbrev pub carried : String → Body S Storm M → Option S
  carried id (segment_status other st) = if str_eq other id then some st else none
  carried id (storm_event e) = none
  carried id (alert a) = none

  -- The last status of a segment among the updates.
  unfoldable pub latest : String → List (Update S Storm M) → Option S
  latest id [] = none
  latest id (u ∷ updates) = or_else (latest id updates) (carried id u.body)

  pub latest-append :
      (id : String) (xs ys : List (Update S Storm M))
      → latest id (xs ++ ys) ≡ or_else (latest id ys) (latest id xs)
  unfolding latest
  latest-append id [] ys = rw (else_none (latest id ys)) refl
  latest-append id (u ∷ xs) ys =
      rw (latest-append id xs ys, else_assoc (latest id ys) (latest id xs) (carried id u.body)) refl

  -- An update that carries no status of the segment leaves the last one as it is.
  silent :
      (id subject : String) (segments : Option (List String)) (r : Routed S Storm M)
      (updates : List (Routed S Storm M))
      → carried id r.update.body ≡ none
      → latest id (wanted subject segments (r ∷ updates))
        ≡ latest id (wanted subject segments updates)
  unfolding wanted latest
  silent id subject segments r updates h =
      elim (Bool-cases (wants_body subject segments r.owners r.update.body)) [
        | inl e ↦ rw (e, h, else_none (latest id (wanted subject segments updates))) refl
        | inr e ↦ rw e refl
      ]

module _ (S Storm M : Type 0) (id subject : String) (segments : Option (List String)) where
  latest-alerts :
      (owners : ℕ → List String) (alerts : List (Alert M))
      → latest id (
          wanted {S = S} {Storm = Storm} subject segments (
            map (λ a. record { owners = owners_of owners a.home; update = alert_update a }) alerts))
        ≡ none
  unfolding wanted latest
  latest-alerts owners [] = refl
  latest-alerts owners (a ∷ alerts) =
      silent id subject segments _ _ refl ∙ latest-alerts owners alerts

  -- The storms and alerts of a round carry no status.
  latest-extra :
      (owners : ℕ → List String) (storms : List (ℕ × Storm)) (alerts : List (Alert M))
      → latest id (wanted subject segments (extra {S = S} owners storms alerts)) ≡ none
  unfolding extra
  latest-extra owners [] alerts = latest-alerts owners alerts
  latest-extra owners (e ∷ storms) alerts =
      silent id subject segments _ _ refl ∙ latest-extra owners storms alerts

  pub latest-round :
      (updates : List (Routed S Storm M)) (owners : ℕ → List String) (storms : List (ℕ × Storm))
      (alerts : List (Alert M))
      → latest id (wanted subject segments (updates ++ extra owners storms alerts))
        ≡ latest id (wanted subject segments updates)
  latest-round updates owners storms alerts =
      rw
        (
          wanted-append subject segments updates (extra owners storms alerts),
          latest-append id (wanted subject segments updates)
              (wanted subject segments (extra owners storms alerts)),
          latest-extra owners storms alerts,
        )
        refl

module _ {S : Type 0} (Storm M : Type 0) (equal : S → S → Bool) (ts : ℕ) (old : List (String × S))
    (id subject : String) (segments : Option (List String)) where
  -- The updates to the changed statuses of the entries that the subscriber wants.
  abbrev news : List (String × S) → List (Update S Storm M)
  news entries = wanted subject segments (changed equal ts old entries)

  other_entry :
      (e : String × S) (entries : List (String × S))
      → str_eq e.0 id ≡ false
      → latest id (news (e ∷ entries)) ≡ latest id (news entries)
  unfolding changed
  other_entry e entries h = elim (Bool-cases (is_same equal (status_of old e.0) e.1)) [
    | inl d ↦ rw d refl
    | inr d ↦ rw d (silent id subject segments _ _ (rw h refl))
  ]

  absent_entry :
      (entries : List (String × S)) → status_of entries id ≡ none → latest id (news entries) ≡ none
  unfolding changed wanted latest status_of
  absent_entry [] h = refl
  absent_entry (e ∷ entries) h = elim (Bool-cases (str_eq e.0 id)) [
    | inl d ↦ cc (rw d at h)
    | inr d ↦ other_entry e entries d ∙ absent_entry entries (rw d at h)
  ]

  same_entry :
      (e : String × S) (st : S)
      → ((a b : S) → equal a b ≡ true → a ≡ b)
      → is_same equal (status_of old e.0) e.1 ≡ true
      → e.1 ≡ st
      → status_of old e.0 ≡ some st
  same_entry e st sound h same = elim (Option-cases (status_of old e.0)) [
    | inl d ↦ cc (rw d at h)
    | inr d ↦ d.1 ∙ ap some (sound d.0 e.1 (rw (d.1) at h) ∙ same)
  ]

  -- The entry of the segment comes first: its update, or the status that was there before.
  own_entry :
      (e : String × S) (entries : List (String × S)) (st : S)
      → ((a b : S) → equal a b ≡ true → a ≡ b)
      → wants_segment segments e.0 ≡ true
      → e.0 ≡ id
      → e.1 ≡ st
      → latest id (news entries) ≡ none
      → or_else (latest id (news (e ∷ entries))) (status_of old e.0) ≡ some st
  unfolding changed wanted latest wants_body
  own_entry e entries st sound w own same gone =
      elim (Bool-cases (is_same equal (status_of old e.0) e.1)) [
        | inl d ↦ rw (d, gone) (same_entry e st sound d same)
        | inr d ↦
            let body : Body S Storm M = segment_status e.0 e.1 in
            let mine : carried id body ≡ some st = rw (own, str_eq_refl id, same) refl in
            rw (d, w, gone, mine) refl
      ]

  -- After a round the last status among the news, or else the old one, is the new one.
  pub news_current :
      (entries : List (String × S)) (st : S)
      → ((a b : S) → equal a b ≡ true → a ≡ b)
      → AreDistinctIds entries
      → wants_segment segments id ≡ true
      → status_of entries id ≡ some st
      → or_else (latest id (news entries)) (status_of old id) ≡ some st
  unfolding status_of AreDistinctIds
  news_current [] st sound distinct w h = cc
  news_current (e ∷ entries) st sound distinct w h = elim (Bool-cases (str_eq e.0 id)) [
    | inr d ↦ rw (other_entry e entries d) (news_current entries st sound distinct.1 w (rw d at h))
    | inl d ↦
        let own : e.0 ≡ id = (eq_iff e.0 id).0 d in
        let same : e.1 ≡ st = some-injective e.1 st (rw d at h) in
        let gone = absent_entry entries (rw own at distinct.0) in
        subst (λ k. or_else (latest id (news (e ∷ entries))) (status_of old k) ≡ some st) own
          (own_entry e entries st sound (rw own w) own same gone)
  ]

module _ {S : Type 0} (Storm M : Type 0) (clock : ℕ) (segments : Option (List String))
    (id : String) where
  abbrev captured : List (String × S) → List (Update S Storm M)
  captured entries = status_snapshot clock segments entries

  captured_step :
      (e : String × S) (entries : List (String × S))
      → wants_segment segments e.0 ≡ true
      → latest id (captured (e ∷ entries))
        ≡ or_else (latest id (captured entries)) (if str_eq e.0 id then some e.1 else none)
  unfolding status_snapshot latest
  captured_step e entries w = rw w refl

  captured_skip :
      (e : String × S) (entries : List (String × S))
      → wants_segment segments e.0 ≡ false
      → latest id (captured (e ∷ entries)) ≡ latest id (captured entries)
  unfolding status_snapshot latest
  captured_skip e entries w = rw w refl

  -- The captured snapshot has the status of every wanted segment.
  pub captured_current :
      (entries : List (String × S))
      → AreDistinctIds entries
      → wants_segment segments id ≡ true
      → latest id (captured entries) ≡ status_of entries id
  unfolding status_of AreDistinctIds latest status_snapshot
  captured_current [] distinct w = refl
  captured_current (e ∷ entries) distinct w =
      let rest = captured_current entries distinct.1 w in
      elim (Bool-cases (str_eq e.0 id)) [
        | inl d ↦
            let own : e.0 ≡ id = (eq_iff e.0 id).0 d in
            let gone : status_of entries id ≡ none = rw own at distinct.0 in
            captured_step e entries (rw own w) ∙ rw (rest, gone, d) refl
        | inr d ↦ elim (Bool-cases (wants_segment segments e.0)) [
          | inl v ↦ captured_step e entries v ∙ rw (d, rest, else_none (status_of entries id)) refl
          | inr v ↦ captured_skip e entries v ∙ rw (d, rest) refl
        ]
      ]

-- What the read after the registration adds carries no status.
module _ (S Storm M : Type 0) (id : String) (owners : ℕ → List String) where
  latest-owner_alerts :
      (s : Subscriber S Storm M) (alerts : List (Alert M))
      → latest id (owner_alerts owners s alerts) ≡ none
  unfolding owner_alerts latest
  latest-owner_alerts s [] = refl
  latest-owner_alerts s (a ∷ alerts) =
      let rest = latest-owner_alerts s alerts in
      elim (Bool-cases
        (contains (owners_of owners a.home) s.subject && wants_segment s.segments a.segment)) [
          | inl e ↦ rw (e, rest) refl
          | inr e ↦ rw (e, rest) refl
        ]

  pub latest-snapshot :
      (s : Subscriber S Storm M) (storms : List (ℕ × Storm)) (alerts : List (Alert M))
      → latest id (snapshot owners storms alerts s) ≡ none
  unfolding snapshot latest
  latest-snapshot s (e ∷ storms) alerts = rw (latest-snapshot s storms alerts) refl
  latest-snapshot s [] alerts = elim (Bool-cases (str_eq s.subject "")) [
    | inl e ↦ rw e refl
    | inr e ↦ rw (e, latest-owner_alerts s alerts) refl
  ]
