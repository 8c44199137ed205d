-- ===== src/Ingest/Server/Tests.antt =====
-- A stream of readings' keys on a concrete schedule, and each property at it.
use sumpnet.Prelude.{ℕ, ◌≤◌, ◌+◌, ◌⊎◌, refl, true, false, List, [], ◌∷◌, none, some, arith}
use sumpnet.Prelude.Words.{word_eq}
use sumpnet.Store.{
  Key, Telemetry, Answer, Faults, house, created, insert, key_eq, has_key, merge_row, merge_stage,
  staged, written, transaction, statements, check, prepare,
}
use sumpnet.Store.Merge.{AreDistinct}
use sumpnet.Ingest.Stream.{
  Config, State, Step, Run, IsDone, start, push, batch, stored, none_yet, more, receive,
  end_of_stream, hand_over, store,
}
use sumpnet.Ingest.Stream.Order.{extract_all}
use sumpnet.Ingest.Stream.Ends.{Ended, steps_in, work, stream_ends}
use sumpnet.Ingest.Server.{World, flush}
use sumpnet.Ingest.Server.Table.{IsStored, stream_stores}

instance unfoldable key_table : Telemetry Key
key_table = record {
  name = "keys";
  is_partitioned = false;
  kind = house;
  key = λ k. k;
  time = λ k. k.at;
}

abbrev no_faults : ℕ → Faults ℕ
no_faults call = record {
  acquire = none;
  begin_tx = none;
  copy = none;
  register = none;
  merge = none;
  notify = none;
  commit = none;
}

abbrev all_created : ℕ → ℕ → ℕ → Answer ℕ
all_created call month try = created true

abbrev row : ℕ → Key
row at = record { device = 97 ∷ []; at = at; f_cnt = 1 }

abbrev world : World Key
world = record {
  store = record { auto_register = true; seen_months = [] };
  db = record { devices = []; rows = []; notified = [] };
  calls = 0;
}

-- A request is its rows; batches are queued up to one.
abbrev cfg : Config
cfg = record { batch_max = 100; queue_batches = 0 }

abbrev own : List Key → List Key
own rows = rows

abbrev request : List Key
request = row 5 ∷ row 6 ∷ row 5 ∷ []

abbrev KeyState : Type 0
KeyState = State Key (World Key) ℕ

abbrev begun : KeyState
begun = start world

abbrev received : KeyState
received = batch 100 request begun

abbrev closed : KeyState
closed = push (record received { is_closed = true })

abbrev handed : KeyState
handed = record closed { pushing = none; storing = some request }

abbrev done : KeyState
done = stored (flush 9 no_faults all_created handed.world request) handed

abbrev Reached : List (List Key) → KeyState → Type 0
Reached = Run own cfg (flush 9 no_faults all_created) begun

to_closed : Reached (request ∷ []) closed
unfolding batch push
to_closed =
    more (request ∷ []) [] received
      (more [] (request ∷ []) begun none_yet
        (receive begun request (record { healthy = refl; is_open = refl; free = refl })))
      (end_of_stream received (record { healthy = refl; is_open = refl; free = refl }))

to_handed : Run own cfg (flush 9 no_faults all_created) closed [] handed
unfolding batch push
to_handed = more [] [] closed none_yet (hand_over closed request refl refl refl refl)

to_done : Reached (request ∷ []) done
unfolding batch push
to_done =
    more (request ∷ []) [] handed
      (more (request ∷ []) [] closed to_closed (hand_over closed request refl refl refl refl))
      (store handed request refl refl)

done-IsDone : IsDone done
unfolding key_table flush insert prepare transaction statements check written merge_stage merge_row
    has_key key_eq word_eq staged stored batch push
done-IsDone = record {
  healthy = refl;
  closed = refl;
  no_rows = refl;
  none_pushing = refl;
  none_queued = refl;
  none_storing = refl;
}

stream_stores_example : IsStored world (extract_all own (request ∷ [])) done.world done.total
unfolding AreDistinct extract_all
stream_stores_example =
    stream_stores 9 no_faults all_created own cfg world (request ∷ []) done tt to_done done-IsDone
      (omega arith)

stream_ends_example :
    (steps_in own cfg (flush 9 no_faults all_created) closed [] handed to_handed + work handed
      ≤ work closed)
    × (Ended handed
        ⊎ ((now : List (List Key)) × (s : KeyState) × Step own cfg
              (flush 9 no_faults all_created)
              handed
              now
              s))
unfolding batch push
stream_ends_example =
    stream_ends own cfg (flush 9 no_faults all_created) world (request ∷ []) closed [] handed
      to_closed refl to_handed
