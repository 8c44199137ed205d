-- ===== src/Hydrology/ShortCycling.antt =====
-- What ShortCyclingRun counts.
use sumpnet.Prelude.{
  ℕ, zero, suc, ◌+◌, ◌*◌, ◌≤◌, ◌<◌, ◌≡◌, true, false, List, ◌∷◌, some, arith, length, get_elem?,
  get_elem?-lt, Bool-cases, inl, inr,
}
use native.Mathlib.Decide.{ℕ_discrete}
use sumpnet.Hydrology.{Cycle, is_apart, apart_at, count_close, short_cycling_run}

-- The result of the loop from `i` with `run`: it counts the close pairs below `i`, and stops at 0 or
-- at a pair that is apart.
record Counted (s : List Cycle) (i run r : ℕ) : Type 0 where
  more : run ≤ r
  most : r ≤ run + i
  close : (j : ℕ) → j < i → i + run ≤ j + r → apart_at s j ≡ false
  stop : (j : ℕ) → j + r + 1 ≡ i + run → apart_at s j ≡ true

count_close-Counted : (s : List Cycle) (i run : ℕ) → Counted s i run (count_close s i run)
unfolding count_close
count_close-Counted s zero run = record {
  more = omega arith;
  most = omega arith;
  close = λ j h k. absurd (omega arith);
  stop = λ j e. absurd (omega arith);
}
count_close-Counted s (suc i) run = elim (Bool-cases (apart_at s i)) [
  | inl far ↦ rw far (record {
    more = omega arith;
    most = omega arith;
    close = λ j h k. absurd (omega arith);
    stop = λ j e. let e' : j ≡ i = omega arith in rw e' far;
  })
  | inr near ↦
      let c = count_close-Counted s i (run + 1) in
      rw near (record {
        more = omega (arith, c.more);
        most = omega (arith, c.most);
        close = λ j h k. elim (ℕ_discrete j i) [
          | yes e ↦ rw e near
          | no ne ↦ c.close j (omega arith) (omega arith)
        ];
        stop = λ j e. c.stop j (omega arith);
      })
]

-- The idle time between two runs is shorter than a minute; and it is a minute or more.
abbrev pub IsClose : Cycle → Cycle → Type 0
IsClose p c = c.started_at < p.started_at + p.run_s * 1_000_000_000 + 60_000_000_000

abbrev pub IsFar : Cycle → Cycle → Type 0
IsFar p c = p.started_at + p.run_s * 1_000_000_000 + 60_000_000_000 ≤ c.started_at

-- The length `r` of the longest trailing run of `s`.
pub record IsTrailingRun (s : List Cycle) (r : ℕ) : Type 0 where
  pub nonempty : 0 < r
  pub bounded : r ≤ length s
  pub inside :
      (j : ℕ) (p c : Cycle)
      → length s ≤ j + r
      → get_elem? s j ≡ some p
      → get_elem? s (suc j) ≡ some c
      → IsClose p c
  pub outside :
      (j : ℕ) (p c : Cycle)
      → j + r + 1 ≡ length s
      → get_elem? s j ≡ some p
      → get_elem? s (suc j) ≡ some c
      → IsFar p c

apart_at-IsClose :
    (s : List Cycle) (j : ℕ) (p c : Cycle)
    → get_elem? s j ≡ some p
    → get_elem? s (suc j) ≡ some c
    → apart_at s j ≡ false
    → IsClose p c
unfolding apart_at is_apart
apart_at-IsClose s j p c hp hc h = ground arith

apart_at-IsFar :
    (s : List Cycle) (j : ℕ) (p c : Cycle)
    → get_elem? s j ≡ some p
    → get_elem? s (suc j) ≡ some c
    → apart_at s j ≡ true
    → IsFar p c
unfolding apart_at is_apart
apart_at-IsFar s j p c hp hc h = ground arith

-- ShortCyclingRun of a non-empty series is the length of its longest trailing run of cycles in
-- which each starts less than a minute after the one before it ended: at least one cycle and no
-- more than all of them, every neighbouring pair inside the run closer than a minute and, where a
-- cycle stands before the run, the first pair outside it at least a minute apart.
pub short_cycling_run-IsTrailingRun :
    (c : Cycle) (cs : List Cycle) → IsTrailingRun (c ∷ cs) (short_cycling_run (c ∷ cs))
unfolding short_cycling_run
short_cycling_run-IsTrailingRun c cs = record {
  nonempty = omega (arith, k.more);
  bounded = omega (arith, k.most);
  inside = λ j p d h hp hd.
      apart_at-IsClose (c ∷ cs) j p d hp hd (k.close j (inside_range j p d hd) (omega arith));
  outside = λ j p d e hp hd. apart_at-IsFar (c ∷ cs) j p d hp hd (k.stop j (omega arith));
}
  where
    k : Counted (c ∷ cs) (length cs) 1 (count_close (c ∷ cs) (length cs) 1)
    k = count_close-Counted (c ∷ cs) (length cs) 1

    inside_range : (j : ℕ) (p d : Cycle) → get_elem? cs j ≡ some d → j < length cs
    inside_range j p d hd = get_elem?-lt cs j hd
