-- ===== src/Gateway/Watch/Tests.antt =====
-- A hub with an owner and an anonymous subscriber, and each property at it.
use sumpnet.Prelude.{
  ℕ, ◌≡◌, refl, String, true, List, [], ◌∷◌, none, some, ◌==◌, ==_iff, if◌then◌else◌,
}
use sumpnet.Gateway.Watch.{
  Subscriber, Hub, Event, Alert, round, subscribe, send, react, react_all, publish, fan_out,
  deliver_all, deliver, wants, wants_body, wants_segment, contains, changed, status_of, extra,
  status_snapshot, send_next, at_sub, new_hub, segment_status, alert,
}
use sumpnet.Gateway.Watch.Stream.{stream, sub_of}
use sumpnet.Gateway.Watch.Latest.{latest, AreDistinctIds}
use sumpnet.Gateway.Watch.Follows.{hub_follows}
use sumpnet.Gateway.Watch.Private.{MayGetAll, hub_private}

-- A status, a storm and an alert's message are numbers here.
abbrev TestEvent : Type 0
TestEvent = Event ℕ ℕ ℕ

abbrev ann_owns : ℕ → List String
ann_owns home = if home == 7 then "ann" ∷ [] else []

abbrev leak : Alert ℕ
leak = record { home = some 7; segment = "s1"; updated_at = 9; message = 1 }

abbrev events : List TestEvent
events =
    round 1 (("s1", 3) ∷ ("s2", 4) ∷ []) ann_owns [] []
    ∷ subscribe "ann" [] true
    ∷ subscribe "" ("s2" ∷ []) true
    ∷ send 0
    ∷ round 2 (("s1", 5) ∷ ("s2", 4) ∷ []) ann_owns [] (leak ∷ [])
    ∷ []

abbrev hub : Hub ℕ ℕ ℕ
hub = react_all ◌==◌ 8 events new_hub

abbrev ann : Subscriber ℕ ℕ ℕ
ann = record {
  id = 0;
  subject = "ann";
  segments = none;
  has_snapshot = true;
  first = record { ts = 1; body = segment_status "s2" 4 } ∷ [];
  channel =
      record { ts = 2; body = segment_status "s1" 5 } ∷ record { ts = 9; body = alert leak } ∷ [];
  sent = record { ts = 1; body = segment_status "s1" 3 } ∷ [];
}

abbrev anonymous : Subscriber ℕ ℕ ℕ
anonymous = record {
  id = 1;
  subject = "";
  segments = some ("s2" ∷ []);
  has_snapshot = true;
  first = record { ts = 1; body = segment_status "s2" 4 } ∷ [];
  channel = [];
  sent = [];
}

ann_gets : sub_of 0 hub.subs ≡ some ann
unfolding react_all react publish fan_out deliver_all deliver wants wants_body wants_segment
    contains changed status_of extra status_snapshot send_next at_sub sub_of
ann_gets = refl

anonymous_gets : sub_of 1 hub.subs ≡ some anonymous
unfolding react_all react publish fan_out deliver_all deliver wants wants_body wants_segment
    contains changed status_of extra status_snapshot send_next at_sub sub_of
anonymous_gets = refl

-- With room for one update the owner falls behind and is removed.
falls_behind : sub_of 0 (react_all ◌==◌ 1 events new_hub).subs ≡ none
unfolding react_all react publish fan_out deliver_all deliver wants wants_body wants_segment
    contains changed status_of extra status_snapshot send_next at_sub sub_of
falls_behind = refl

hub_follows_example : latest "s1" (stream ann) ≡ some 5
unfolding AreDistinctIds status_of wants_segment react_all react publish
hub_follows_example =
    hub_follows ◌==◌ (λ a b e. (==_iff a b).0 e) 8 events 0 ann "s1" 5
      ((refl, (refl, tt)), ((refl, (refl, tt)), tt)) ann_gets refl refl refl

-- A subject owns the homes of Ann's list.
abbrev Owns : String → ℕ → Type 0
Owns subject home = contains (ann_owns home) subject ≡ true

hub_private_example : MayGetAll Owns "ann" (stream ann)
hub_private_example =
    hub_private Owns ◌==◌ 8 events 0 ann ((λ s h e. e), ((λ s h e. e), tt)) ann_gets
