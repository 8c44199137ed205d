-- ===== src/Bridge/Batcher/Order.antt =====
-- The batcher keeps every message, in order, and acknowledges what was flushed.
use sumpnet.Prelude.{
  ℕ, ◌≡◌, ◌≤◌, ◌<◌, refl, sym, ap, ◌∙◌, List, [], ◌∷◌, ◌++◌, Option, Option-cases, length,
  append_assoc, append_nil, arith, inl, inr, ◌⊎◌,
}
use sumpnet.Bridge.Batcher.{
  Envelope, BatchConfig, Batcher, Event, arrive, due, cancel, with_ack, messages, running, finished,
  failed, submit,
}

module _ {T : Type 0} where
  unfoldable pub concat : List (List (Envelope T)) → List (Envelope T)
  concat [] = []
  concat (b ∷ bs) = b ++ concat bs

  -- The envelopes of the events, in order.
  unfoldable pub arrivals : List (Event T) → List (Envelope T)
  arrivals [] = []
  arrivals (arrive e ∷ events) = e ∷ arrivals events
  arrivals (due ∷ events) = arrivals events
  arrivals (cancel queued ∷ events) = queued ++ arrivals events

  concat-snoc :
      (bs : List (List (Envelope T))) (b : List (Envelope T))
      → concat (bs ++ b ∷ []) ≡ concat bs ++ b
  unfolding concat
  concat-snoc [] b = append_nil b
  concat-snoc (c ∷ bs) b = ap (λ l. c ++ l) (concat-snoc bs b) ∙ sym (append_assoc c (concat bs) b)

  with_ack-append : (xs ys : List (Envelope T)) → with_ack (xs ++ ys) ≡ with_ack xs ++ with_ack ys
  with_ack-append [] ys = refl
  with_ack-append (x ∷ xs) ys = ground (arith, with_ack-append xs ys)

module _ {E T : Type 0} (flush : ℕ → List T → Option E) (cfg : BatchConfig) where
  -- A batch holds an envelope, and no more than the configured number.
  abbrev pub Sized : List (List (Envelope T)) → Type 0
  Sized [] = Unit
  Sized (b ∷ bs) = (1 ≤ length b) × (length b ≤ cfg.max_items) × Sized bs

  Sized-snoc :
      (bs : List (List (Envelope T))) (b : List (Envelope T))
      → Sized bs
      → 1 ≤ length b
      → length b ≤ cfg.max_items
      → Sized (bs ++ b ∷ [])
  Sized-snoc [] b s lo hi = (lo, hi, tt)
  Sized-snoc (c ∷ bs) b (l, h, s) lo hi = (l, h, Sized-snoc bs b s lo hi)

  -- Where Run stands: waiting with less than a batch, returned with nothing left, or returned
  -- with the error of a batch that was refused.
  pub data Standing (b : Batcher E T) : Type 0 where
    waiting : b.status ≡ running → b.refused ≡ [] → length b.cur < cfg.max_items → Standing b
    drained : b.status ≡ finished → b.refused ≡ [] → b.cur ≡ [] → Standing b
    broken : (e : E) → b.status ≡ failed e → Standing b

  -- What the batcher has taken in, in order: the batches that were flushed, the one that was
  -- refused, if any, and what is pending. Exactly the flushed envelopes are acknowledged.
  pub record Accounts (b : Batcher E T) (seen : List (Envelope T)) : Type 0 where
    pub in_order : concat b.flushed ++ (b.refused ++ b.cur) ≡ seen
    pub acknowledged : b.acked ≡ with_ack (concat b.flushed)
    pub sized : Sized b.flushed

  -- What `submit` makes of a batch that was taken out of `cur`.
  module _ (b : Batcher E T) (batch rest seen : List (Envelope T)) where
    pub record Before : Type 0 where
      pub is_running : b.status ≡ running
      pub none_refused : b.refused ≡ []
      pub cur_rest : b.cur ≡ rest
      pub whole : concat b.flushed ++ (batch ++ rest) ≡ seen
      pub acks : b.acked ≡ with_ack (concat b.flushed)
      pub sizes : Sized b.flushed
      pub some_left : 1 ≤ length batch
      pub not_over : length batch ≤ cfg.max_items

    pub submit-Accounts : Before → Accounts (submit flush cfg b batch) seen
    unfolding submit
    submit-Accounts x = elim (Option-cases (flush b.calls (messages batch))) [
      | inr (e, h) ↦ record {
        in_order = rw (h, submit) (rw (x.cur_rest) (x.whole));
        acknowledged = rw (h, submit) (x.acks);
        sized = rw (h, submit) (x.sizes);
      }
      | inl h ↦ record {
        in_order =
            rw (h, submit)
              (rw (concat-snoc b.flushed batch, x.none_refused, x.cur_rest)
                (append_assoc (concat b.flushed) batch rest ∙ x.whole));
        acknowledged =
            rw (h, submit)
              (rw (concat-snoc b.flushed batch, x.acks)
                (sym (with_ack-append (concat b.flushed) batch)));
        sized = rw (h, submit) (Sized-snoc b.flushed batch x.sizes x.some_left x.not_over);
      }
    ]

    pub submit-status :
        Before
        → ((submit flush cfg b batch).status ≡ running)
            × ((submit flush cfg b batch).refused ≡ [])
            × ((submit flush cfg b batch).cur ≡ rest)
          ⊎ (e : E) × ((submit flush cfg b batch).status ≡ failed e)
    unfolding submit
    submit-status x = elim (Option-cases (flush b.calls (messages batch))) [
      | inr (e, h) ↦ inr (e, rw (h, submit) refl)
      | inl h ↦ inl (
        rw (h, submit) (x.is_running),
        rw (h, submit) (x.none_refused),
        rw (h, submit) (x.cur_rest),
      )
    ]
