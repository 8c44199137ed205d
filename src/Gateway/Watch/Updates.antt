-- ===== src/Gateway/Watch/Updates.antt =====
-- internal/gateway/watch.go: updates, subscribers, the hub and what happens to it.
use sumpnet.Prelude.{ℕ, String, Bool, List, Option}

-- An alert with its home and the segment of the home.
pub record Alert (M : Type 0) : Type 0 where
  pub home : Option ℕ
  pub segment : String
  pub updated_at : ℕ
  pub message : M

pub data Body (S Storm M : Type 0) : Type 0 where
  segment_status : String → S → Body S Storm M
  storm_event : Storm → Body S Storm M
  alert : Alert M → Body S Storm M

pub record Update (S Storm M : Type 0) : Type 0 where
  pub ts : ℕ
  pub body : Body S Storm M

-- routed: the kind and the segment of an update are those of its body.
pub record Routed (S Storm M : Type 0) : Type 0 where
  pub owners : List String
  pub update : Update S Storm M

-- segments is none for every segment, has_snapshot the request's send_snapshot. What Serve sends first is `first`, then what is in the channel;
-- `sent` is what it has sent.
pub record Subscriber (S Storm M : Type 0) : Type 0 where
  pub id : ℕ
  pub subject : String
  pub segments : Option (List String)
  pub has_snapshot : Bool
  pub first : List (Update S Storm M)
  pub channel : List (Update S Storm M)
  pub sent : List (Update S Storm M)

pub record Hub (S Storm M : Type 0) : Type 0 where
  pub subs : List (Subscriber S Storm M)
  pub statuses : List (String × S)
  pub clock : ℕ
  pub next_id : ℕ

-- What happens to a hub: a round of Run that read its data, a call of Serve up to the registration
-- and the snapshot read after it, an update sent, and a stream that ends.
pub data Event (S Storm M : Type 0) : Type 0 where
  round :
      ℕ
      → List (String × S)
      → (ℕ → List String)
      → List (ℕ × Storm)
      → List (Alert M)
      → Event S Storm M
  subscribe : String → List String → Bool → Event S Storm M
  read_snapshot : ℕ → (ℕ → List String) → List (ℕ × Storm) → List (Alert M) → Event S Storm M
  send : ℕ → Event S Storm M
  leave : ℕ → Event S Storm M
