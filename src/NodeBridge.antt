-- ===== src/NodeBridge.antt =====
-- internal/nodebridge/convert.go: the messages of nodes that speak MQTT themselves. A topic is a list
-- of code points. encoding/json is the argument `parse_json`, which gives the instant of the field t;
-- the name-based uuid of a library is the argument `dedup_id`.
pub mod Topics
mod Tests
use sumpnet.Prelude.{
  ℕ, ◌+◌, Bool, true, false, ◌&&◌, List, [], ◌∷◌, ◌++◌, Option, none, some, ◌==◌, if◌then◌else◌,
}
use sumpnet.Prelude.Int.{ℤ, pos}
use sumpnet.Prelude.Result.{Result, ok, err, ◌>>=◌}
use sumpnet.Codec.{Error, unknown_port, bad_length, bad_value, Uplink, decode}
use sumpnet.Ingest.Convert.{UplinkMeta, to_lower, is_dev_eui}
use sumpnet.Bridge.Convert.{Decoded, from_uplink}

pub record Envelope : Type 0 where
  pub f_cnt : ℕ
  pub f_port : ℕ
  pub payload : List ℕ
  pub t : Option ℕ
  pub rssi : Option ℤ

pub data DropReason : Type 0 where
  bad_topic bad_json unknown_port_reason bad_payload : DropReason

-- "sumpnet", "v1", "up" and "wifi"
abbrev pub sumpnet_word : List ℕ
sumpnet_word = 115 ∷ 117 ∷ 109 ∷ 112 ∷ 110 ∷ 101 ∷ 116 ∷ []

abbrev pub v1_word : List ℕ
v1_word = 118 ∷ 49 ∷ []

abbrev pub up_word : List ℕ
up_word = 117 ∷ 112 ∷ []

abbrev pub gateway_word : List ℕ
gateway_word = 119 ∷ 105 ∷ 102 ∷ 105 ∷ []

abbrev pub slash : ℕ
slash = 47

-- Topic
unfoldable pub topic : List ℕ → List ℕ
topic dev_eui = sumpnet_word ++ slash ∷ (v1_word ++ slash ∷ (to_lower dev_eui ++ slash ∷ up_word))

abbrev pub cons_head : ℕ → List (List ℕ) → List (List ℕ)
cons_head c [] = (c ∷ []) ∷ []
cons_head c (w ∷ words) = (c ∷ w) ∷ words

-- strings.Split at the slashes
unfoldable pub split : List ℕ → List (List ℕ)
split [] = [] ∷ []
split (c ∷ cs) = let rest = split cs in if c == slash then [] ∷ rest else cons_head c rest

unfoldable pub same_word : List ℕ → List ℕ → Bool
same_word [] [] = true
same_word [] (d ∷ ds) = false
same_word (c ∷ cs) [] = false
same_word (c ∷ cs) (d ∷ ds) = c == d && same_word cs ds

unfoldable pub device_of : List (List ℕ) → Option (List ℕ)
device_of (a ∷ b ∷ dev ∷ d ∷ []) =
    if same_word a sumpnet_word && (same_word b v1_word && (same_word d up_word && is_dev_eui dev))
    then some dev
    else none
device_of [] = none
device_of (a ∷ []) = none
device_of (a ∷ b ∷ []) = none
device_of (a ∷ b ∷ c ∷ []) = none
device_of (a ∷ b ∷ c ∷ d ∷ e ∷ more) = none

-- ParseTopic
unfoldable pub parse_topic : List ℕ → Option (List ℕ)
parse_topic t = device_of (split t)

abbrev pub drop_reason : Error → DropReason
drop_reason unknown_port = unknown_port_reason
drop_reason bad_length = bad_payload
drop_reason bad_value = bad_payload

abbrev pub or_now : Option ℕ → ℕ → ℕ
or_now none now = now
or_now (some t) now = t

abbrev pub is_fallback : Option ℕ → Bool
is_fallback none = true
is_fallback (some t) = false

abbrev pub or_zero : Option ℤ → ℤ
or_zero none = pos 0
or_zero (some r) = r

module _ (parse_json : List ℕ → Option Envelope) (dedup_id : List ℕ → ℕ → ℕ → List ℕ) where
  abbrev pub meta_for : List ℕ → Envelope → ℕ → UplinkMeta
  meta_for dev env now = record {
    dev_eui = dev;
    received_at = some (or_now env.t now);
    f_cnt = env.f_cnt;
    gateway_id = gateway_word;
    rssi_dbm = or_zero env.rssi;
    snr_db = some (pos 0);
    spreading_factor = 0;
    deduplication_id = dedup_id dev env.f_cnt env.f_port;
  }

  -- Decode: the message and whether the time is a fallback.
  unfoldable pub decode_message : List ℕ → List ℕ → ℕ → Result DropReason (Decoded × Bool)
  decode_message t payload now = elim (parse_topic t) [
    | none ↦ err bad_topic
    | some dev ↦ elim (parse_json payload) [
      | none ↦ err bad_json
      | some env ↦ elim (decode env.f_port env.payload) [
        | err e ↦ err (drop_reason e)
        | ok u ↦ ok (from_uplink u (meta_for dev env now) (or_now env.t now), is_fallback env.t)
      ]
    ]
  ]
