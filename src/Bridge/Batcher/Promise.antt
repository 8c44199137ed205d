-- ===== src/Bridge/Batcher/Promise.antt =====
-- What the bridges rely on: no message is lost, reordered or acknowledged early.
use sumpnet.Prelude.{ℕ, ◌<◌, refl, arith, List, [], Option}
use sumpnet.Bridge.Batcher.{BatchConfig, with_defaults, new_batcher, Event, run}
use sumpnet.Bridge.Batcher.Order.{concat, arrivals, waiting}
use sumpnet.Bridge.Batcher.Turns.{Taken, run-Taken}

pub items_positive : (cfg : BatchConfig) → 0 < (with_defaults cfg).max_items
unfolding with_defaults
items_positive cfg = ground arith

-- For any events, any configuration and any flush function, a run of a new batcher takes envelopes
-- which, followed by those of the events that it did not come to, are the events' envelopes in
-- order. The taken ones are the flushed batches, the batch that flush refused, if any, and what
-- is pending, in this order. Exactly the flushed envelopes that have an Ack were acknowledged, in
-- order; a flushed batch has at least one envelope and no more than the configured number. The
-- run waits with less than a batch pending, has finished with nothing pending or refused, or has
-- failed.
pub run_accounts :
    {E T : Type 0} (flush : ℕ → List T → Option E) (cfg : BatchConfig) (events : List (Event T))
    → let (b, left) = run flush (with_defaults cfg) new_batcher events in
      Taken flush (with_defaults cfg) (items_positive cfg) b left (arrivals events)
unfolding concat arrivals
run_accounts flush cfg events =
    run-Taken flush (with_defaults cfg) (items_positive cfg) events new_batcher []
      (record { in_order = refl; acknowledged = refl; sized = tt })
      (waiting refl refl (items_positive cfg))
