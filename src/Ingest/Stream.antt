-- ===== src/Ingest/Stream.antt =====
-- runStream of internal/ingest/server.go: one goroutine receives requests, one batches their rows by
-- size and age, one stores the batches in order, with a bounded channel between the last two. A step
-- of the relation is what one goroutine does between two waits, so that a run of steps is an
-- interleaving. A failed stream takes no further step; what its goroutines still store is not told
-- to the client.
pub mod Order
pub mod Ends
use sumpnet.Prelude.{
  ℕ, zero, suc, ◌+◌, ◌%◌, ◌<◌, ◌≡◌, Bool, true, false, List, [], ◌∷◌, ◌++◌, Option, none, some, leb,
  if◌then◌else◌, length,
}
use sumpnet.Prelude.Result.{Result, ok, err}
use sumpnet.Store.{BatchResult}

pub record Config : Type 0 where
  pub batch_max : ℕ
  pub queue_batches : ℕ

-- The totals are uint32.
pub record Counts : Type 0 where
  pub accepted : ℕ
  pub duplicates : ℕ
  pub rejected : ℕ

abbrev pub zero_counts : Counts
zero_counts = record { accepted = 0; duplicates = 0; rejected = 0 }

unfoldable pub add_counts : Counts → BatchResult → Counts
add_counts c res = record {
  accepted = (c.accepted + res.accepted) % 4294967296;
  duplicates = (c.duplicates + res.duplicates) % 4294967296;
  rejected = (c.rejected + res.rejected) % 4294967296;
}

-- cur and the timer belong to the batching goroutine, which waits in a send on the channel where
-- `pushing` is a batch; the storing goroutine has taken the batch `storing`.
pub record State (Row W E : Type 0) : Type 0 where
  pub cur : List Row
  pub is_timed : Bool
  pub is_closed : Bool
  pub pushing : Option (List Row)
  pub queue : List (List Row)
  pub storing : Option (List Row)
  pub total : Counts
  pub world : W
  pub failed : Option E

abbrev pub start : {Row W E : Type 0} → W → State Row W E
start w = record {
  cur = [];
  is_timed = false;
  is_closed = false;
  pushing = none;
  queue = [];
  storing = none;
  total = zero_counts;
  world = w;
  failed = none;
}

abbrev pub send : {Row W E : Type 0} → List Row → State Row W E → State Row W E
send [] s = s
send (r ∷ rows) s = record s { cur = []; is_timed = false; pushing = some (r ∷ rows) }

-- push, up to the send on the channel.
unfoldable pub push : {Row W E : Type 0} → State Row W E → State Row W E
push s = send s.cur s

-- The rows of a request join the current batch, which is pushed if it is full.
unfoldable pub batch : {Row W E : Type 0} → ℕ → List Row → State Row W E → State Row W E
batch batch_max [] s = s
batch batch_max (r ∷ rows) s =
    let s1 = record s { cur = s.cur ++ r ∷ rows; is_timed = true } in
    if leb batch_max (length s1.cur) then push s1 else s1

-- The end of a flush of the batch that is stored.
unfoldable pub stored :
    {Row W E : Type 0} → W × Result E BatchResult → State Row W E → State Row W E
stored (w, ok res) s = record s { world = w; storing = none; total = add_counts s.total res }
stored (w, err e) s = record s { world = w; storing = none; failed = some e }

-- The batching goroutine waits in its select.
pub record IsWaiting {Row W E : Type 0} (s : State Row W E) : Type 0 where
  pub healthy : s.failed ≡ none
  pub is_open : s.is_closed ≡ false
  pub free : s.pushing ≡ none

module _ {Req Row W E : Type 0} (extract : Req → List Row) (cfg : Config)
    (flush : W → List Row → W × Result E BatchResult) where
  -- A step, with the requests that it received.
  pub data Step : State Row W E → List Req → State Row W E → Type 0 where
    receive :
        (s : State Row W E) (req : Req)
        → IsWaiting s
        → Step s (req ∷ []) (batch cfg.batch_max (extract req) s)
    due : (s : State Row W E) → IsWaiting s → s.is_timed ≡ true → Step s [] (push s)
    end_of_stream :
        (s : State Row W E) → IsWaiting s → Step s [] (push (record s { is_closed = true }))
    broken : (s : State Row W E) (e : E) → IsWaiting s → Step s [] (record s { failed = some e })
    enqueue :
        (s : State Row W E) (b : List Row)
        → s.failed ≡ none
        → s.pushing ≡ some b
        → length s.queue < cfg.queue_batches
        → Step s [] (record s { pushing = none; queue = s.queue ++ b ∷ [] })
    hand_over :
        (s : State Row W E) (b : List Row)
        → s.failed ≡ none
        → s.pushing ≡ some b
        → s.queue ≡ []
        → s.storing ≡ none
        → Step s [] (record s { pushing = none; storing = some b })
    take :
        (s : State Row W E) (b : List Row) (queue : List (List Row))
        → s.failed ≡ none
        → s.queue ≡ b ∷ queue
        → s.storing ≡ none
        → Step s [] (record s { queue = queue; storing = some b })
    store :
        (s : State Row W E) (b : List Row)
        → s.failed ≡ none
        → s.storing ≡ some b
        → Step s [] (stored (flush s.world b) s)

  -- A run of steps with the requests that it received.
  pub data Run (s : State Row W E) : List Req → State Row W E → Type 0 where
    none_yet : Run s [] s
    more :
        (before now : List Req) (mid : State Row W E) {end : State Row W E}
        → Run s before mid
        → Step mid now end
        → Run s (before ++ now) end

-- The stream is done: the client has closed it and every batch is stored.
pub record IsDone {Row W E : Type 0} (s : State Row W E) : Type 0 where
  pub healthy : s.failed ≡ none
  pub closed : s.is_closed ≡ true
  pub no_rows : s.cur ≡ []
  pub none_pushing : s.pushing ≡ none
  pub none_queued : s.queue ≡ []
  pub none_storing : s.storing ≡ none
