-- ===== src/Bridge/Batcher.antt =====
-- internal/bridge/batcher.go: the loop of Batcher.Run as a function on the events that its select
-- picks. `flush` is the function that the bridge passes in: the number of calls so far and the
-- messages give an error or none. Metrics are left out, and an Ack that fails is only logged.
pub mod Order
pub mod Turns
pub mod Promise
use sumpnet.Prelude.{
  ℕ, zero, suc, ◌+◌, Bool, true, false, ◌||◌, List, [], ◌∷◌, ◌++◌, Option, none, some, ltb, leb,
  ◌==◌, if◌then◌else◌, min, length, take, drop, map,
}

pub record Envelope (T : Type 0) : Type 0 where
  pub msg : T
  pub has_ack : Bool

pub record BatchConfig : Type 0 where
  pub max_items : ℕ
  pub max_delay : ℕ
  pub queue_depth : ℕ
  pub drain_timeout : ℕ

abbrev pub or_default : ℕ → ℕ → ℕ
or_default n d = if n == 0 then d else n

-- The configuration that NewBatcher keeps; durations are nanoseconds.
unfoldable pub with_defaults : BatchConfig → BatchConfig
with_defaults cfg = record {
  max_items = or_default cfg.max_items 500;
  max_delay = or_default cfg.max_delay 100_000_000;
  queue_depth = or_default cfg.queue_depth 2000;
  drain_timeout = or_default cfg.drain_timeout 10_000_000_000;
}

pub data Status (E : Type 0) : Type 0 where
  running finished : Status E
  failed : E → Status E

-- The variables of Run, the batches that flush took, the envelopes acknowledged after them, and the
-- batch that flush refused, if Run returned an error.
pub record Batcher (E T : Type 0) : Type 0 where
  pub cur : List (Envelope T)
  pub armed : Bool
  pub calls : ℕ
  pub flushed : List (List (Envelope T))
  pub acked : List (Envelope T)
  pub refused : List (Envelope T)
  pub status : Status E

abbrev pub new_batcher : {E T : Type 0} → Batcher E T
new_batcher = record {
  cur = [];
  armed = false;
  calls = 0;
  flushed = [];
  acked = [];
  refused = [];
  status = running;
}

pub data Event (T : Type 0) : Type 0 where
  arrive : Envelope T → Event T
  due : Event T
  -- The context ended, with these envelopes still queued.
  cancel : List (Envelope T) → Event T

abbrev pub is_empty : {A : Type 0} → List A → Bool
is_empty [] = true
is_empty (a ∷ more) = false

abbrev pub with_ack : {T : Type 0} → List (Envelope T) → List (Envelope T)
with_ack [] = []
with_ack (e ∷ es) = let rest = with_ack es in if e.has_ack then e ∷ rest else rest

abbrev pub messages : {T : Type 0} → List (Envelope T) → List T
messages [] = []
messages (e ∷ es) = e.msg ∷ messages es

module _ {E T : Type 0} (flush : ℕ → List T → Option E) (cfg : BatchConfig) where
  -- submit: flush the batch, then acknowledge its envelopes.
  unfoldable pub submit : Batcher E T → List (Envelope T) → Batcher E T
  submit b batch = elim (flush b.calls (messages batch)) [
    | some e ↦ record b { calls = b.calls + 1; refused = batch; status = failed e }
    | none ↦ record b {
      calls = b.calls + 1;
      flushed = b.flushed ++ batch ∷ [];
      acked = b.acked ++ with_ack batch;
    }
  ]

  unfoldable pub do_flush : Batcher E T → Batcher E T
  do_flush b = if is_empty b.cur then b else submit (record b { cur = []; armed = false }) b.cur

  unfoldable pub receive : Batcher E T → Envelope T → Batcher E T
  receive b e =
      let b1 = record b { cur = b.cur ++ e ∷ []; armed = is_empty b.cur || b.armed } in
      if leb cfg.max_items (length b1.cur) then do_flush b1 else b1

  -- The loop that drains `cur`; it flushes at least one envelope a turn, so that the number of
  -- envelopes is enough fuel.
  unfoldable pub drain : ℕ → Batcher E T → Batcher E T
  drain zero b = record b { status = finished }
  drain (suc fuel) b =
      if is_empty b.cur
      then record b { status = finished }
      else let n = min (length b.cur) cfg.max_items in
        let b1 = submit (record b { cur = drop n b.cur }) (take n b.cur) in
        elim b1.status [ running ↦ drain fuel b1 | finished ↦ b1 | failed e ↦ b1 ]

  -- One turn of Run's select.
  unfoldable pub turn : Batcher E T → Event T → Batcher E T
  turn b (arrive e) = receive b e
  turn b due = if b.armed then do_flush b else b
  turn b (cancel queued) = drain (length (b.cur ++ queued)) (record b { cur = b.cur ++ queued })

  -- Run: it returns at the first error and after a drain. The events that it did not come to are
  -- the second part of the result.
  unfoldable pub run : Batcher E T → List (Event T) → Batcher E T × List (Event T)
  run b [] = (b, [])
  run b (e ∷ events) = elim b.status [
    | running ↦ run (turn b e) events
    | finished ↦ (b, e ∷ events)
    | failed x ↦ (b, e ∷ events)
  ]
