-- ===== src/Ingest/Stream/Order.antt =====
-- The rows of a stream are stored in the order received, each once, whatever the interleaving.
use sumpnet.Prelude.{
  ℕ, ◌≡◌, refl, sym, true, List, [], ◌∷◌, ◌++◌, Option, none, some, leb, length, Bool-cases, inl,
  inr, append_assoc, append_nil, subst,
}
use sumpnet.Prelude.Result.{Result, ok, err}
use sumpnet.Store.{BatchResult}
use sumpnet.Ingest.Stream.{
  Config, Counts, State, push, send, batch, stored, Step, Run, add_counts, zero_counts, start,
}

unfoldable pub concat : {A : Type 0} → List (List A) → List A
concat [] = []
concat (xs ∷ xss) = xs ++ concat xss

abbrev pub rows_in : {A : Type 0} → Option (List A) → List A
rows_in none = []
rows_in (some b) = b

-- The rows of the batches stored, queued and pushed and of the current one, in this order.
abbrev flight : {A : Type 0} → Option (List A) → List (List A) → Option (List A) → List A → List A
flight storing queue pushing cur = rows_in storing ++ (concat queue ++ (rows_in pushing ++ cur))

unfoldable pub in_flight : {Row W E : Type 0} → State Row W E → List Row
in_flight s = flight s.storing s.queue s.pushing s.cur

pub concat-append :
    {A : Type 0} (xss yss : List (List A)) → concat (xss ++ yss) ≡ concat xss ++ concat yss
unfolding concat
concat-append [] yss = refl
concat-append (xs ∷ xss) yss =
    rw (concat-append xss yss, ← append_assoc xs (concat xss) (concat yss)) refl

module _ {A : Type 0} (storing : Option (List A)) (queue : List (List A)) where
  sent :
      (pushing : Option (List A)) (cur rows : List A)
      → pushing ≡ none
      → cur ≡ rows
      → flight storing queue (some rows) [] ≡ flight storing queue pushing cur
  sent pushing cur rows free e = rw (free, e, append_nil rows) refl

  joined :
      (pushing : Option (List A)) (cur rows : List A)
      → flight storing queue pushing (cur ++ rows) ≡ flight storing queue pushing cur ++ rows
  joined pushing cur rows =
      rw
        (
          append_assoc (rows_in storing) (concat queue ++ (rows_in pushing ++ cur)) rows,
          append_assoc (concat queue) (rows_in pushing ++ cur) rows,
          append_assoc (rows_in pushing) cur rows,
        )
        refl

  queued :
      (pushing : Option (List A)) (cur b : List A)
      → pushing ≡ some b
      → flight storing (queue ++ b ∷ []) none cur ≡ flight storing queue pushing cur
  unfolding concat
  queued pushing cur b e =
      rw (e, concat-append queue (b ∷ []), append_nil b, append_assoc (concat queue) b cur) refl

handed :
    {A : Type 0} (storing : Option (List A)) (queue : List (List A)) (pushing : Option (List A))
    (cur b : List A)
    → pushing ≡ some b
    → queue ≡ []
    → storing ≡ none
    → flight (some b) queue none cur ≡ flight storing queue pushing cur
unfolding concat
handed storing queue pushing cur b p q t = rw (p, q, t) refl

taken :
    {A : Type 0} (storing : Option (List A)) (queue rest : List (List A))
    (pushing : Option (List A)) (cur b : List A)
    → queue ≡ b ∷ rest
    → storing ≡ none
    → flight (some b) rest pushing cur ≡ flight storing queue pushing cur
unfolding concat
taken storing queue rest pushing cur b q t =
    rw (q, t, append_assoc b (concat rest) (rows_in pushing ++ cur)) refl

landed :
    {A : Type 0} (batches : List (List A)) (storing : Option (List A)) (queue : List (List A))
    (pushing : Option (List A)) (cur b : List A)
    → storing ≡ some b
    → concat (batches ++ b ∷ []) ++ flight none queue pushing cur
      ≡ concat batches ++ flight storing queue pushing cur
unfolding concat
landed batches storing queue pushing cur b t =
    rw
      (
        t,
        concat-append batches (b ∷ []),
        append_nil b,
        append_assoc (concat batches) b (concat queue ++ (rows_in pushing ++ cur)),
      )
      refl

module _ {Row W E : Type 0} where
  send-in_flight :
      (s : State Row W E) (rows : List Row)
      → s.pushing ≡ none
      → s.cur ≡ rows
      → in_flight (send rows s) ≡ in_flight s
  unfolding in_flight
  send-in_flight s [] free e = refl
  send-in_flight s (r ∷ rows) free e = sent s.storing s.queue s.pushing s.cur (r ∷ rows) free e

  push-in_flight : (s : State Row W E) → s.pushing ≡ none → in_flight (push s) ≡ in_flight s
  unfolding push
  push-in_flight s free = send-in_flight s s.cur free refl

  batch-in_flight :
      (batch_max : ℕ) (rows : List Row) (s : State Row W E)
      → s.pushing ≡ none
      → in_flight (batch batch_max rows s) ≡ in_flight s ++ rows
  unfolding batch in_flight
  batch-in_flight m [] s free = rw (append_nil (in_flight s)) refl
  batch-in_flight m (r ∷ rows) s free =
      let s1 = record s { cur = s.cur ++ r ∷ rows; is_timed = true } in
      elim (Bool-cases (leb m (length (s.cur ++ r ∷ rows)))) [
        | inl e ↦
            rw (e, push-in_flight s1 free) (joined s.storing s.queue s.pushing s.cur (r ∷ rows))
        | inr e ↦ rw e (joined s.storing s.queue s.pushing s.cur (r ∷ rows))
      ]

  -- A state whose store is the same.
  abbrev SameStore : State Row W E → State Row W E → Type 0
  SameStore s s1 = (s1.world ≡ s.world) × (s1.total ≡ s.total)

  send-SameStore : (rows : List Row) (s : State Row W E) → SameStore s (send rows s)
  send-SameStore [] s = (refl, refl)
  send-SameStore (r ∷ rows) s = (refl, refl)

  push-SameStore : (s : State Row W E) → SameStore s (push s)
  unfolding push
  push-SameStore s = send-SameStore s.cur s

  batch-SameStore : (m : ℕ) (rows : List Row) (s : State Row W E) → SameStore s (batch m rows s)
  unfolding batch
  batch-SameStore m [] s = (refl, refl)
  batch-SameStore m (r ∷ rows) s =
      let s1 = record s { cur = s.cur ++ r ∷ rows; is_timed = true } in
      elim (Bool-cases (leb m (length (s.cur ++ r ∷ rows)))) [
        | inl e ↦ rw e (push-SameStore s1)
        | inr e ↦ rw e (refl, refl)
      ]

module _ {Row W E : Type 0} (flush : W → List Row → W × Result E BatchResult) where
  -- The batches were stored one after another with success: the world and the totals after them.
  pub data Flushed (w : W) : List (List Row) → W → Counts → Type 0 where
    none_yet : Flushed w [] w zero_counts
    next :
        (batches : List (List Row)) (w1 : W) {w2 : W} (c : Counts) (b : List Row)
        (res : BatchResult)
        → Flushed w batches w1 c
        → flush w1 b ≡ (w2, ok res)
        → Flushed w (batches ++ b ∷ []) w2 (add_counts c res)

  -- The rows received are those of the batches stored, then those in flight.
  pub record InOrder (w : W) (rows : List Row) (s : State Row W E) : Type 0 where
    pub batches : List (List Row)
    pub flushed : Flushed w batches s.world s.total
    pub kept : concat batches ++ in_flight s ≡ rows

  moved :
      (w : W) (rows more : List Row) (s s1 : State Row W E)
      → SameStore s s1
      → in_flight s1 ≡ in_flight s ++ more
      → InOrder w rows s
      → InOrder w (rows ++ more) s1
  moved w rows more s s1 same grown o = record {
    batches = o.batches;
    flushed =
        subst (λ x. Flushed w o.batches x s1.total) (sym same.0)
          (subst (Flushed w o.batches s.world) (sym same.1) o.flushed);
    kept = rw (grown, ← append_assoc (concat o.batches) (in_flight s) more, o.kept) refl;
  }

  kept-InOrder :
      (w : W) (rows : List Row) (s s1 : State Row W E)
      → SameStore s s1
      → in_flight s1 ≡ in_flight s
      → InOrder w rows s
      → InOrder w (rows ++ []) s1
  kept-InOrder w rows s s1 same e o =
      moved w rows [] s s1 same (rw (e, append_nil (in_flight s)) refl) o

  stored-InOrder :
      (w : W) (rows b : List Row) (s : State Row W E) (out : W × Result E BatchResult)
      → flush s.world b ≡ out
      → s.storing ≡ some b
      → InOrder w rows s
      → (stored out s).failed ≡ none
      → InOrder w (rows ++ []) (stored out s)
  unfolding stored in_flight
  stored-InOrder w rows b s (w1, ok res) f t o h = record {
    batches = o.batches ++ b ∷ [];
    flushed = Flushed.next o.batches s.world s.total b res o.flushed f;
    kept = rw (landed o.batches s.storing s.queue s.pushing s.cur b t, append_nil rows) o.kept;
  }
  stored-InOrder w rows b s (w1, err e) f t o h = cc

module _ {Req Row : Type 0} (extract : Req → List Row) where
  unfoldable pub extract_all : List Req → List Row
  extract_all [] = []
  extract_all (req ∷ reqs) = extract req ++ extract_all reqs

  extract-append :
      (reqs more : List Req) → extract_all (reqs ++ more) ≡ extract_all reqs ++ extract_all more
  unfolding extract_all
  extract-append [] more = refl
  extract-append (req ∷ reqs) more =
      rw
        (extract-append reqs more, append_assoc (extract req) (extract_all reqs) (extract_all more))
        refl

module _ {Req Row W E : Type 0} (extract : Req → List Row) (cfg : Config)
    (flush : W → List Row → W × Result E BatchResult) where
  step-InOrder :
      (w : W) (rows : List Row) (now : List Req) (s s1 : State Row W E)
      → Step extract cfg flush s now s1
      → InOrder flush w rows s
      → s1.failed ≡ none
      → InOrder flush w (rows ++ extract_all extract now) s1
  unfolding extract_all in_flight
  step-InOrder w rows now _ _ (Step.receive s req i) o h =
      moved flush w rows (extract req ++ []) s _ (batch-SameStore cfg.batch_max (extract req) s)
        (rw (append_nil (extract req)) (batch-in_flight cfg.batch_max (extract req) s i.free)) o
  step-InOrder w rows now _ _ (Step.due s i e) o h =
      kept-InOrder flush w rows s (push s) (push-SameStore s) (push-in_flight s i.free) o
  step-InOrder w rows now _ _ (Step.end_of_stream s i) o h =
      let s1 = record s { is_closed = true } in
      kept-InOrder flush w rows s (push s1) (push-SameStore s1) (push-in_flight s1 i.free) o
  step-InOrder w rows now _ _ (Step.broken s e i) o h = cc
  step-InOrder w rows now _ _ (Step.enqueue s b g p l) o h =
      kept-InOrder flush w rows s _ (refl, refl) (queued s.storing s.queue s.pushing s.cur b p) o
  step-InOrder w rows now _ _ (Step.hand_over s b g p q t) o h =
      kept-InOrder flush w rows s _ (refl, refl) (handed s.storing s.queue s.pushing s.cur b p q t)
        o
  step-InOrder w rows now _ _ (Step.take s b queue g q t) o h =
      kept-InOrder flush w rows s _ (refl, refl)
        (taken s.storing s.queue queue s.pushing s.cur b q t) o
  step-InOrder w rows now _ _ (Step.store s b g t) o h =
      stored-InOrder flush w rows b s (flush s.world b) refl t o h

  -- A failed stream takes no step.
  step-healthy :
      (now : List Req) (s s1 : State Row W E) → Step extract cfg flush s now s1 → s.failed ≡ none
  step-healthy now _ _ (Step.receive s req i) = i.healthy
  step-healthy now _ _ (Step.due s i e) = i.healthy
  step-healthy now _ _ (Step.end_of_stream s i) = i.healthy
  step-healthy now _ _ (Step.broken s e i) = i.healthy
  step-healthy now _ _ (Step.enqueue s b g p l) = g
  step-healthy now _ _ (Step.hand_over s b g p q t) = g
  step-healthy now _ _ (Step.take s b queue g q t) = g
  step-healthy now _ _ (Step.store s b g t) = g

  pub run-InOrder :
      (w : W) (reqs : List Req) (s : State Row W E)
      → Run extract cfg flush (start w) reqs s
      → s.failed ≡ none
      → InOrder flush w (extract_all extract reqs) s
  unfolding extract_all in_flight concat
  run-InOrder w _ _ Run.none_yet h = record {
    batches = [];
    flushed = Flushed.none_yet;
    kept = refl;
  }
  run-InOrder w _ s (Run.more before now mid run step) h = rw (extract-append extract before now) (
      step-InOrder w (extract_all extract before) now mid s step
        (run-InOrder w before mid run (step-healthy now mid s step)) h)
