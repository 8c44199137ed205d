-- ===== src/Bridge/Batcher/Turns.antt =====
-- Every turn of Run, and so every run, keeps the account of the envelopes.
use sumpnet.Prelude.{
  ℕ, zero, suc, ◌+◌, ◌≡◌, ◌≢◌, ◌≤◌, ◌<◌, ◌⊎◌, refl, sym, ap, ◌∙◌, subst, Bool, true, false, ◌||◌,
  List, [], ◌∷◌, ◌++◌, Option, leb, if◌then◌else◌, Bool-cases, min, length, take, drop,
  take-append-drop, length-take, length-drop, length-append, append_assoc, append_nil, arith, inl,
  inr,
}
use sumpnet.Bridge.Batcher.{
  Envelope, BatchConfig, Status, Batcher, Event, arrive, due, cancel, is_empty, running, finished,
  failed, do_flush, receive, drain, turn, run,
}
use sumpnet.Bridge.Batcher.Order.{
  concat, arrivals, Standing, waiting, drained, broken, Accounts, Before, submit-Accounts,
  submit-status,
}

empty_length : {A : Type 0} (xs : List A) → is_empty xs ≡ true → xs ≡ []
empty_length [] h = refl
empty_length (x ∷ xs) h = cc

filled_length : {A : Type 0} (xs : List A) → is_empty xs ≡ false → 1 ≤ length xs
filled_length [] h = cc
filled_length (x ∷ xs) h = omega arith

either_way : {A : Type 0} (P : A → Type 0) (c : Bool) {x y : A} → P x → P y → P (if c then x else y)
either_way P true p q = p
either_way P false p q = q

nil_of : {A : Type 0} (xs : List A) → length xs ≤ 0 → xs ≡ []
nil_of [] h = refl
nil_of (x ∷ xs) h = absurd (omega arith)

module _ {E T : Type 0} (flush : ℕ → List T → Option E) (cfg : BatchConfig)
    (some_items : 0 < cfg.max_items) where
  abbrev Sound : Batcher E T → List (Envelope T) → Type 0
  Sound b seen = Accounts flush cfg b seen × Standing flush cfg b

  -- After a flush of all that was pending, Run waits or has failed.
  do_flush-Sound :
      (b : Batcher E T) (seen : List (Envelope T))
      → Accounts flush cfg b seen
      → b.status ≡ running
      → b.refused ≡ []
      → length b.cur ≤ cfg.max_items
      → Sound (do_flush flush cfg b) seen
  unfolding do_flush
  do_flush-Sound b seen a run_b clean le = elim (Bool-cases (is_empty b.cur)) [
    | inl e ↦ rw e (a, waiting run_b clean (rw (empty_length b.cur e) (omega (arith, some_items))))
    | inr e ↦
        let whole : concat b.flushed ++ (b.cur ++ []) ≡ seen =
          rw (append_nil b.cur) (rw clean at a.in_order) in
        let x : Before flush cfg (record b { cur = []; armed = false }) b.cur [] seen = record {
          is_running = run_b;
          none_refused = clean;
          cur_rest = refl;
          whole = whole;
          acks = a.acknowledged;
          sizes = a.sized;
          some_left = filled_length b.cur e;
          not_over = le;
        } in
        rw e (
          submit-Accounts flush cfg (record b { cur = []; armed = false }) b.cur [] seen x,
          elim (submit-status flush cfg (record b { cur = []; armed = false }) b.cur [] seen x) [
            | inl (r, n, c) ↦ waiting r n (rw c (omega (arith, some_items)))
            | inr (y, f) ↦ broken y f
          ],
        )
  ]

  receive-Sound :
      (b : Batcher E T) (e : Envelope T) (seen : List (Envelope T))
      → Accounts flush cfg b seen
      → b.status ≡ running
      → b.refused ≡ []
      → length b.cur < cfg.max_items
      → Sound (receive flush cfg b e) (seen ++ e ∷ [])
  unfolding receive
  receive-Sound b e seen a run_b clean lt =
      let b1 = record b { cur = b.cur ++ e ∷ []; armed = is_empty b.cur || b.armed } in
      let long : length (b.cur ++ e ∷ []) ≡ length b.cur + 1 = length-append b.cur (e ∷ []) in
      let whole : concat b.flushed ++ b.cur ≡ seen = rw clean at a.in_order in
      let a1 : Accounts flush cfg b1 (seen ++ e ∷ []) = record {
        in_order =
            rw clean
              (sym (append_assoc (concat b.flushed) b.cur (e ∷ [])) ∙ ap (λ l. l ++ e ∷ []) whole);
        acknowledged = a.acknowledged;
        sized = a.sized;
      } in
      elim (Bool-cases (leb cfg.max_items (length (b.cur ++ e ∷ [])))) [
        | inl h ↦ rw h (do_flush-Sound b1 (seen ++ e ∷ []) a1 run_b clean (omega (arith, long, lt)))
        | inr h ↦ rw h (a1, waiting run_b clean (ground arith))
      ]

  -- The drain flushes all that is pending, in batches of the configured size, or fails.
  drain-Sound :
      (fuel : ℕ) (b : Batcher E T) (seen : List (Envelope T))
      → Accounts flush cfg b seen
      → b.status ≡ running
      → b.refused ≡ []
      → length b.cur ≤ fuel
      → Accounts flush cfg (drain flush cfg fuel b) seen
        × (((drain flush cfg fuel b).status ≡ finished)
              × ((drain flush cfg fuel b).refused ≡ [])
              × ((drain flush cfg fuel b).cur ≡ [])
            ⊎ (x : E) × ((drain flush cfg fuel b).status ≡ failed x))
  unfolding drain
  drain-Sound zero b seen a run_b clean le = (
    record { in_order = a.in_order; acknowledged = a.acknowledged; sized = a.sized },
    inl (refl, clean, nil_of b.cur le),
  )
  drain-Sound (suc fuel) b seen a run_b clean le = elim (Bool-cases (is_empty b.cur)) [
    | inl e ↦ rw e (
      record { in_order = a.in_order; acknowledged = a.acknowledged; sized = a.sized },
      inl (refl, clean, empty_length b.cur e),
    )
    | inr e ↦
        let n = min (length b.cur) cfg.max_items in
        let b0 = record b { cur = drop n b.cur } in
        let whole : concat b.flushed ++ (take n b.cur ++ drop n b.cur) ≡ seen =
          rw (take-append-drop n b.cur) (rw clean at a.in_order) in
        let some_here = filled_length b.cur e in
        let x : Before flush cfg b0 (take n b.cur) (drop n b.cur) seen = record {
          is_running = run_b;
          none_refused = clean;
          cur_rest = refl;
          whole = whole;
          acks = a.acknowledged;
          sizes = a.sized;
          some_left = omega (arith, length-take n b.cur, some_here, some_items);
          not_over = omega (arith, length-take n b.cur);
        } in
        let a1 = submit-Accounts flush cfg b0 (take n b.cur) (drop n b.cur) seen x in
        rw e (elim (submit-status flush cfg b0 (take n b.cur) (drop n b.cur) seen x) [
          | inl (r, c, k) ↦ rw r (
              drain-Sound fuel _ seen a1 r c
                (rw k (omega (arith, length-drop n b.cur, some_here, some_items, le))))
          | inr (y, f) ↦ rw f (a1, inr (y, f))
        ])
  ]

  turn-Sound :
      (b : Batcher E T) (e : Event T) (seen : List (Envelope T))
      → Accounts flush cfg b seen
      → b.status ≡ running
      → b.refused ≡ []
      → length b.cur < cfg.max_items
      → Sound (turn flush cfg b e) (seen ++ arrivals (e ∷ []))
  unfolding turn arrivals
  turn-Sound b (arrive e) seen a run_b clean lt = receive-Sound b e seen a run_b clean lt
  turn-Sound b due seen a run_b clean lt = rw (append_nil seen) (
      either_way (λ x. Sound x seen) b.armed
        (do_flush-Sound b seen a run_b clean (omega (arith, lt))) (a, waiting run_b clean lt))
  turn-Sound b (cancel queued) seen a run_b clean lt =
      let b1 = record b { cur = b.cur ++ queued } in
      let whole : concat b.flushed ++ b.cur ≡ seen = rw clean at a.in_order in
      let a1 : Accounts flush cfg b1 (seen ++ queued) = record {
        in_order =
            rw clean
              (sym (append_assoc (concat b.flushed) b.cur queued) ∙ ap (λ l. l ++ queued) whole);
        acknowledged = a.acknowledged;
        sized = a.sized;
      } in
      rw (append_nil queued) (
        let (kept, ends) =
          drain-Sound (length (b.cur ++ queued)) b1 (seen ++ queued) a1 run_b clean (omega arith) in
        (kept, elim ends [ inl (f, r, c) ↦ drained f r c | inr (x, f) ↦ broken x f ]))

  -- The envelopes that a run took, which with those of the events it left are all of them.
  pub record Taken (b' : Batcher E T) (left : List (Event T)) (whole : List (Envelope T))
      : Type 0 where
    pub taken : List (Envelope T)
    pub complete : taken ++ arrivals left ≡ whole
    pub accounts : Accounts flush cfg b' taken
    pub standing : Standing flush cfg b'

  arrivals-cons :
      (e : Event T) (events : List (Event T))
      → arrivals (e ∷ events) ≡ arrivals (e ∷ []) ++ arrivals events
  unfolding arrivals
  arrivals-cons (arrive e) events = refl
  arrivals-cons due events = refl
  arrivals-cons (cancel queued) events = ap (λ l. l ++ arrivals events) (sym (append_nil queued))

  -- Run goes on while it is running, and has returned otherwise.
  run-running :
      (b : Batcher E T) (e : Event T) (events : List (Event T))
      → b.status ≡ running
      → run flush cfg b (e ∷ events) ≡ run flush cfg (turn flush cfg b e) events
  unfolding run
  run-running b e events r =
      ap
        (λ st. elim st [
          | running ↦ run flush cfg (turn flush cfg b e) events
          | finished ↦ (b, e ∷ events)
          | failed x ↦ (b, e ∷ events)
        ])
        r

  run-stopped :
      (b : Batcher E T) (e : Event T) (events : List (Event T)) (st : Status E)
      → b.status ≡ st
      → st ≢ running
      → run flush cfg b (e ∷ events) ≡ (b, e ∷ events)
  unfolding run
  run-stopped b e events running r stopped = absurd (stopped refl)
  run-stopped b e events finished r stopped = rw r refl
  run-stopped b e events (failed x) r stopped = rw r refl

  pub run-Taken :
      (events : List (Event T)) (b : Batcher E T) (seen : List (Envelope T))
      → Accounts flush cfg b seen
      → Standing flush cfg b
      → Taken (run flush cfg b events).0 (run flush cfg b events).1 (seen ++ arrivals events)
  unfolding run
  run-Taken [] b seen a st = record { taken = seen; complete = refl; accounts = a; standing = st }
  run-Taken (e ∷ events) b seen a (waiting r c l) =
      let (a1, st1) = turn-Sound b e seen a r c l in
      let more = run-Taken events (turn flush cfg b e) (seen ++ arrivals (e ∷ [])) a1 st1 in
      let same : (seen ++ arrivals (e ∷ [])) ++ arrivals events ≡ seen ++ arrivals (e ∷ events) =
        append_assoc seen (arrivals (e ∷ [])) (arrivals events)
        ∙ ap (λ l. seen ++ l) (sym (arrivals-cons e events)) in
      subst (λ x. Taken x.0 x.1 (seen ++ arrivals (e ∷ events))) (sym (run-running b e events r))
        (subst
          (Taken (run flush cfg (turn flush cfg b e) events).0
            (run flush cfg (turn flush cfg b e) events).1)
          same more)
  run-Taken (e ∷ events) b seen a (drained f r c) =
      subst (λ x. Taken x.0 x.1 (seen ++ arrivals (e ∷ events)))
        (sym (run-stopped b e events finished f (λ x. cc)))
        (record { taken = seen; complete = refl; accounts = a; standing = drained f r c })
  run-Taken (e ∷ events) b seen a (broken x f) =
      subst (λ x. Taken x.0 x.1 (seen ++ arrivals (e ∷ events)))
        (sym (run-stopped b e events (failed x) f (λ y. cc)))
        (record { taken = seen; complete = refl; accounts = a; standing = broken x f })
