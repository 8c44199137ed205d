-- ===== src/Store/Tests.antt =====
-- Inserts of the bulk path on concrete batches, and each property at one of them.
use sumpnet.Prelude.{ℕ, ◌≡◌, refl, true, false, List, [], ◌∷◌, none, some, zero, suc}
use sumpnet.Prelude.Result.{ok}
use sumpnet.Prelude.Words.{word_eq}
use sumpnet.Store.{
  Key, Telemetry, Database, Store, Answer, Faults, house, created, duplicate_table, insert,
  month_of, key_eq, has_key, merge_row, merge_stage, staged, of_known, is_known, written,
  transaction, statements, check, prepare, ensure_partitions, is_in, create_partition,
}
use sumpnet.Store.Merge.{first_with, AreDistinct}
use sumpnet.Store.Refine.{Call, run, run_refines}
use sumpnet.Store.Counts.{Accounts, insert-Accounts}
use sumpnet.Store.Again.{IsIdle, insert_again}

-- A table of rows that are nothing but their key.
instance unfoldable key_table : Telemetry Key
key_table = record {
  name = "keys";
  is_partitioned = true;
  kind = house;
  key = λ k. k;
  time = λ k. k.at;
}

abbrev no_faults : Faults ℕ
no_faults = record {
  acquire = none;
  begin_tx = none;
  copy = none;
  register = none;
  merge = none;
  notify = none;
  commit = none;
}

abbrev no_commit : Faults ℕ
no_commit = record no_faults { commit = some 7 }

abbrev all_created : ℕ → ℕ → Answer ℕ
all_created month try = created true

abbrev row : ℕ → ℕ → Key
row device at = record { device = device ∷ []; at = at; f_cnt = 1 }

abbrev two_rows : List Key
two_rows = row 97 5 ∷ row 98 3 ∷ row 97 5 ∷ []

abbrev empty : Database Key
empty = record { devices = []; rows = []; notified = [] }

abbrev registering : Store
registering = record { auto_register = true; seen_months = [] }

abbrev one_known : Database Key
one_known = record {
  devices = record { dev_eui = 97 ∷ []; kind = house; last_seen_at = none } ∷ [];
  rows = [];
  notified = [];
}

abbrev closed_list : Store
closed_list = record { auto_register = false; seen_months = [] }

-- 2026-04-01 and the last nanosecond before it lie in neighbouring months, 2000-02-29 and 2000-03-01
-- too.
months :
    (month_of 1775001600000000000 ≡ 24313)
    × (month_of 1775001599999999999 ≡ 24312)
    × (month_of 951782400000000000 ≡ 23999)
    × (month_of 951868800000000000 ≡ 24000)
unfolding month_of
months = (refl, refl, refl, refl)

first_counts :
    (insert 9 no_faults all_created registering empty two_rows).1
    ≡ ok (record { accepted = 2; duplicates = 1; rejected = 0 })
unfolding key_table insert prepare ensure_partitions create_partition is_in month_of transaction
    statements check written merge_stage merge_row has_key key_eq word_eq staged
first_counts = refl

unknown_counts :
    (insert 9 no_faults all_created closed_list one_known two_rows).1
    ≡ ok (record { accepted = 1; duplicates = 1; rejected = 1 })
unfolding key_table insert prepare ensure_partitions create_partition is_in month_of transaction
    statements check written merge_stage merge_row has_key key_eq word_eq staged of_known is_known
unknown_counts = refl

second_answer : ℕ → Answer ℕ
second_answer zero = duplicate_table
second_answer (suc try) = created false

-- The partition of a month that another replica has just made is there on the second try.
second_try : create_partition 9 second_answer ≡ ok false
unfolding create_partition second_answer
second_try = refl

abbrev calls : List (Call Key ℕ)
calls =
    record { faults = no_faults; answers = all_created; rows = two_rows }
    ∷ record { faults = no_commit; answers = all_created; rows = row 99 1 ∷ [] }
    ∷ record { faults = no_faults; answers = all_created; rows = row 97 5 ∷ row 97 6 ∷ [] }
    ∷ []

run_refines_example :
    ((k : Key)
      → first_with k (run 9 calls registering empty).0.1.rows
        ≡ first_with k (staged true [] (run 9 calls registering empty).1))
    × AreDistinct (run 9 calls registering empty).0.1.rows
unfolding AreDistinct
run_refines_example = run_refines 9 calls registering empty tt

insert-Accounts_example :
    Accounts two_rows one_known
      (insert 9 no_faults all_created closed_list one_known two_rows).0.1
      (record { accepted = 1; duplicates = 1; rejected = 1 })
insert-Accounts_example =
    insert-Accounts 9 no_faults all_created closed_list one_known two_rows
      (record { accepted = 1; duplicates = 1; rejected = 1 }) unknown_counts

abbrev once : Database Key
once = (insert 9 no_faults all_created registering empty two_rows).0.1

again_counts :
    (insert 9 no_faults all_created registering once two_rows).1
    ≡ ok (record { accepted = 0; duplicates = 3; rejected = 0 })
unfolding key_table insert prepare ensure_partitions create_partition is_in month_of transaction
    statements check written merge_stage merge_row has_key key_eq word_eq staged
again_counts = refl

insert_again_example :
    IsIdle once
      (insert 9 no_faults all_created registering once two_rows).0.1
      (record { accepted = 0; duplicates = 3; rejected = 0 })
insert_again_example =
    insert_again 9 no_faults no_faults all_created all_created registering registering empty
      two_rows (record { accepted = 2; duplicates = 1; rejected = 0 })
      (record { accepted = 0; duplicates = 3; rejected = 0 }) refl first_counts again_counts
