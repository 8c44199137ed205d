-- ===== src/Ingest/Stream/Ends.antt =====
-- After the client has closed a stream its goroutines finish, whatever the schedule.
use sumpnet.Prelude.{
  ℕ, suc, ◌+◌, ◌*◌, ◌≤◌, ◌≡◌, refl, sym, true, false, List, [], ◌∷◌, ◌++◌, Option, none, some,
  length, length-append, Option-cases, inl, inr, ◌⊎◌, arith, leb, Bool-cases, ◌∙◌,
}
use sumpnet.Prelude.Result.{Result, ok, err}
use sumpnet.Store.{BatchResult}
use sumpnet.Ingest.Stream.{Config, State, push, send, batch, stored, Step, Run, IsDone, start}

abbrev pub waiting : {A : Type 0} → Option A → ℕ
waiting none = 0
waiting (some a) = 1

-- How many steps are left at most for the batches in flight.
abbrev pub work : {Row W E : Type 0} → State Row W E → ℕ
work s = 3 * waiting s.pushing + 2 * length s.queue + waiting s.storing

List-cases : {A : Type 0} (xs : List A) → (xs ≡ []) ⊎ ((x : A) × (rest : List A) × (xs ≡ x ∷ rest))
List-cases [] = inl refl
List-cases (x ∷ xs) = inr (x, xs, refl)

-- The client has closed the stream, and the last batch was pushed.
pub record IsEnding {Row W E : Type 0} (s : State Row W E) : Type 0 where
  pub closed : s.is_closed ≡ true
  pub no_rows : s.cur ≡ []

-- The stream is done or has failed.
abbrev pub Ended : {Row W E : Type 0} → State Row W E → Type 0
Ended {E} s = IsDone s ⊎ ((e : E) × (s.failed ≡ some e))

module _ {Row W E : Type 0} where
  send_empties : (rows : List Row) (s : State Row W E) → s.cur ≡ rows → (send rows s).cur ≡ []
  send_empties [] s h = h
  send_empties (r ∷ rows) s h = refl

  push_empties : (s : State Row W E) → (push s).cur ≡ []
  unfolding push
  push_empties s = send_empties s.cur s refl

  send_keeps_open : (rows : List Row) (s : State Row W E) → (send rows s).is_closed ≡ s.is_closed
  send_keeps_open [] s = refl
  send_keeps_open (r ∷ rows) s = refl

  batch_keeps_open :
      (m : ℕ) (rows : List Row) (s : State Row W E) → (batch m rows s).is_closed ≡ s.is_closed
  unfolding batch push
  batch_keeps_open m [] s = refl
  batch_keeps_open m (r ∷ rows) s =
      let cur = s.cur ++ r ∷ rows in
      let s1 = record s { cur = cur; is_timed = true } in
      elim (Bool-cases (leb m (length cur))) [
        | inl e ↦ rw e (send_keeps_open cur s1)
        | inr e ↦ rw e refl
      ]

  stored_keeps :
      (out : W × Result E BatchResult) (s : State Row W E)
      → ((stored out s).is_closed ≡ s.is_closed) × ((stored out s).cur ≡ s.cur)
  unfolding stored
  stored_keeps (w, ok res) s = (refl, refl)
  stored_keeps (w, err e) s = (refl, refl)

module _ {Req Row W E : Type 0} (extract : Req → List Row) (cfg : Config)
    (flush : W → List Row → W × Result E BatchResult) where
  abbrev pub StepOf : State Row W E → List Req → State Row W E → Type 0
  StepOf = Step extract cfg flush

  pub steps_in :
      (s : State Row W E) (reqs : List Req) (s1 : State Row W E)
      → Run extract cfg flush s reqs s1
      → ℕ
  steps_in s _ _ Run.none_yet = 0
  steps_in s _ _ (Run.more before now mid run step) = suc (steps_in s before mid run)

  -- A state that has ended, or in which some goroutine can go on.
  go_on :
      (s : State Row W E)
      → IsEnding s
      → Ended s ⊎ ((now : List Req) × (s1 : State Row W E) × StepOf s now s1)
  go_on s c = elim (Option-cases s.failed) [
    | inr (e, f) ↦ inl (inr (e, f))
    | inl g ↦ elim (Option-cases s.storing) [
      | inr (b, t) ↦ inr ([], _, Step.store s b g t)
      | inl t ↦ elim (List-cases s.queue) [
        | inr (b, queue, q) ↦ inr ([], _, Step.take s b queue g q t)
        | inl q ↦ elim (Option-cases s.pushing) [
          | inr (b, p) ↦ inr ([], _, Step.hand_over s b g p q t)
          | inl p ↦ inl (
              inl (record {
                healthy = g;
                closed = c.closed;
                no_rows = c.no_rows;
                none_pushing = p;
                none_queued = q;
                none_storing = t;
              }))
        ]
      ]
    ]
  ]

  still_open : (s : State Row W E) → s.is_closed ≡ false → s.is_closed ≡ true → {P : Type 0} → P
  still_open s h k = cc

  stored-work :
      (out : W × Result E BatchResult) (b : List Row) (s : State Row W E)
      → s.storing ≡ some b
      → IsEnding s
      → IsEnding (stored out s) × (suc (work (stored out s)) ≤ work s)
  unfolding stored
  stored-work (w, ok res) b s t c =
      (record { closed = c.closed; no_rows = c.no_rows }, rw t (omega arith))
  stored-work (w, err e) b s t c =
      (record { closed = c.closed; no_rows = c.no_rows }, rw t (omega arith))

  step-work :
      (s : State Row W E) (now : List Req) (s1 : State Row W E)
      → StepOf s now s1
      → IsEnding s
      → IsEnding s1 × (suc (work s1) ≤ work s)
  step-work _ now _ (Step.receive s req i) c = still_open s i.is_open c.closed
  step-work _ now _ (Step.due s i e) c = still_open s i.is_open c.closed
  step-work _ now _ (Step.end_of_stream s i) c = still_open s i.is_open c.closed
  step-work _ now _ (Step.broken s e i) c = still_open s i.is_open c.closed
  step-work _ now _ (Step.enqueue s b g p l) c = (
    record { closed = c.closed; no_rows = c.no_rows },
    rw p (omega (arith, length-append s.queue (b ∷ []))),
  )
  step-work _ now _ (Step.hand_over s b g p q t) c =
      (record { closed = c.closed; no_rows = c.no_rows }, rw (p, q, t) (omega arith))
  step-work _ now _ (Step.take s b queue g q t) c =
      (record { closed = c.closed; no_rows = c.no_rows }, rw (q, t) (omega arith))
  step-work _ now _ (Step.store s b g t) c = stored-work (flush s.world b) b s t c

  run-work :
      (s : State Row W E) (reqs : List Req) (s1 : State Row W E)
      (run : Run extract cfg flush s reqs s1)
      → IsEnding s
      → IsEnding s1 × (steps_in s reqs s1 run + work s1 ≤ work s)
  unfolding steps_in
  run-work s _ _ Run.none_yet c = (c, omega arith)
  run-work s _ s1 (Run.more before now mid run step) c =
      let (d, n) = run-work s before mid run c in
      let (d1, n1) = step-work mid now s1 step d in (d1, omega (arith, n, n1))

  -- In a stream whose client has closed it the current batch is empty.
  step_empties :
      (s : State Row W E) (now : List Req) (s1 : State Row W E)
      → StepOf s now s1
      → (s.is_closed ≡ true → s.cur ≡ [])
      → s1.is_closed ≡ true
      → s1.cur ≡ []
  step_empties _ now _ (Step.receive s req i) h k =
      still_open s i.is_open (sym (batch_keeps_open cfg.batch_max (extract req) s) ∙ k)
  step_empties _ now _ (Step.due s i e) h k = push_empties s
  step_empties _ now _ (Step.end_of_stream s i) h k = push_empties (record s { is_closed = true })
  step_empties _ now _ (Step.broken s e i) h k = h k
  step_empties _ now _ (Step.enqueue s b g p l) h k = h k
  step_empties _ now _ (Step.hand_over s b g p q t) h k = h k
  step_empties _ now _ (Step.take s b queue g q t) h k = h k
  step_empties _ now _ (Step.store s b g t) h k =
      let (closed, cur) = stored_keeps (flush s.world b) s in cur ∙ h (sym closed ∙ k)

  closed_empties :
      (w : W) (reqs : List Req) (s : State Row W E)
      → Run extract cfg flush (start w) reqs s
      → s.is_closed ≡ true
      → s.cur ≡ []
  closed_empties w _ _ Run.none_yet h = refl
  closed_empties w _ s (Run.more before now mid run step) h =
      step_empties mid now s step (closed_empties w before mid run) h

  -- After the client has closed a stream, every schedule of its goroutines takes at most three steps
  -- for a batch that waits to be queued, two for a queued one and one for the batch that is stored,
  -- and as long as the stream is neither done nor failed one of them can go on, whatever the capacity
  -- of the channel.
  pub stream_ends :
      (w : W) (before : List Req) (s : State Row W E) (after : List Req) (s1 : State Row W E)
      → Run extract cfg flush (start w) before s
      → s.is_closed ≡ true
      → (run : Run extract cfg flush s after s1)
      → (steps_in s after s1 run + work s1 ≤ work s)
        × (Ended s1 ⊎ ((now : List Req) × (s2 : State Row W E) × StepOf s1 now s2))
  stream_ends w before s after s1 reached closed run =
      let start_ending : IsEnding s = record {
        closed = closed;
        no_rows = closed_empties w before s reached closed;
      } in
      let (ending, bounded) = run-work s after s1 run start_ending in (bounded, go_on s1 ending)
