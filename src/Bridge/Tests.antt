-- ===== src/Bridge/Tests.antt =====
-- The theorem on the batcher, applied to three messages, a timer and a shutdown, and the theorem on
-- conversion, applied to a heartbeat.
use sumpnet.Prelude.{ℕ, true, List, [], ◌∷◌, Option, none, some, ◌==◌, if◌then◌else◌}
use sumpnet.Prelude.{◌≡◌, refl, arith}
use sumpnet.Prelude.Int.{pos}
use sumpnet.Prelude.Bytes.{AreBytes}
use sumpnet.Prelude.Result.{ok}
use sumpnet.Codec.{Heartbeat, heartbeat, decode, unmarshal_heartbeat, has_undefined_bits}
use sumpnet.Ingest.Convert.{
  UplinkMeta, Origin, Limits, columns, meta_of, Reading, ReadingRow, reading_row,
}
use sumpnet.Bridge.Convert.{reading, from_uplink}
use sumpnet.Bridge.Convert.Wire.{Carries, wire_heartbeat_kept}
use sumpnet.Bridge.Batcher.{
  Envelope, BatchConfig, with_defaults, new_batcher, Event, arrive, due, cancel, run,
}
use sumpnet.Bridge.Batcher.Order.{arrivals}
use sumpnet.Bridge.Batcher.Turns.{Taken}
use sumpnet.Bridge.Batcher.Promise.{items_positive, run_accounts}

abbrev pairs : BatchConfig
pairs = record { max_items = 2; max_delay = 0; queue_depth = 0; drain_timeout = 0 }

abbrev envelope : ℕ → Envelope ℕ
envelope n = record { msg = n; has_ack = true }

abbrev events : List (Event ℕ)
events =
    arrive (envelope 1)
    ∷ arrive (envelope 2)
    ∷ arrive (envelope 3)
    ∷ due
    ∷ cancel (envelope 4 ∷ envelope 5 ∷ envelope 6 ∷ [])
    ∷ []

-- The fourth call of flush fails.
abbrev flush : ℕ → List ℕ → Option ℕ
flush n batch = if n == 3 then some 9 else none

run_accounts_example :
    let (b, left) = run flush (with_defaults pairs) new_batcher events in
    Taken flush (with_defaults pairs) (items_positive pairs) b left (arrivals events)
run_accounts_example = run_accounts flush pairs events

-- A heartbeat as it comes over the air, with the mains on.
abbrev heartbeat_bytes : List ℕ
heartbeat_bytes = 174 ∷ 1 ∷ 126 ∷ 4 ∷ 70 ∷ 16 ∷ 14 ∷ 2 ∷ 1 ∷ 0 ∷ []

abbrev wire_heartbeat : Heartbeat
wire_heartbeat = record {
  level_mm = 430;
  temp_centi_c = pos 1150;
  rh_pct = 70;
  batt_mv = 3600;
  cycles_since_last = 2;
  flags = 1;
  reserved = 0;
}

abbrev limits : Limits
limits = record { now = 1000; max_future = 300 }

abbrev no_uuid : List ℕ → Option ℕ
no_uuid s = none

abbrev zeros : List ℕ
zeros = 48 ∷ 48 ∷ 48 ∷ 48 ∷ 48 ∷ 48 ∷ 48 ∷ 48 ∷ 48 ∷ 48 ∷ 48 ∷ 48 ∷ 48 ∷ 48 ∷ 48 ∷ 49 ∷ []

abbrev uplink_meta : UplinkMeta
uplink_meta = record {
  dev_eui = zeros;
  received_at = some 990;
  f_cnt = 12;
  gateway_id = [];
  rssi_dbm = pos 0;
  snr_db = none;
  spreading_factor = 7;
  deduplication_id = [];
}

abbrev origin : Origin
origin = record { device = zeros; received = 990; meta = columns no_uuid limits uplink_meta }

heartbeat_bytes-AreBytes : AreBytes heartbeat_bytes
heartbeat_bytes-AreBytes = (
  omega arith,
  (
    omega arith,
    (
      omega arith,
      (
        omega arith,
        (
          omega arith,
          (omega arith, (omega arith, (omega arith, (omega arith, (omega arith, tt))))),
        ),
      ),
    ),
  ),
)

heartbeat_decoded : decode 1 heartbeat_bytes ≡ ok (heartbeat wire_heartbeat)
unfolding decode unmarshal_heartbeat has_undefined_bits
heartbeat_decoded = refl

meta_accepted : meta_of no_uuid limits (some uplink_meta) ≡ ok origin
unfolding meta_of
meta_accepted = refl

wire_heartbeat_kept_example :
    (r : Reading) × (row : ReadingRow) × (from_uplink (heartbeat wire_heartbeat) uplink_meta 995
      ≡ reading r)
    × (reading_row no_uuid limits r ≡ ok row)
    × Carries row wire_heartbeat zeros 995
wire_heartbeat_kept_example =
    wire_heartbeat_kept no_uuid limits 1 heartbeat_bytes wire_heartbeat uplink_meta origin 995
      heartbeat_bytes-AreBytes heartbeat_decoded meta_accepted (omega arith)
