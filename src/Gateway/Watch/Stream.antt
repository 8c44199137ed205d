-- ===== src/Gateway/Watch/Stream.antt =====
-- What a subscriber gets, as one list, and what a round adds to it.
use mathlib.Core.Option.{some-injective}
use sumpnet.Prelude.{
  ℕ, ◌≡◌, refl, String, Bool, true, false, List, [], ◌∷◌, ◌++◌, Option, none, some, ltb, length,
  ◌==◌, if◌then◌else◌, Bool-cases, inl, inr, append_assoc, append_nil, subst, Option-cases, ◌∙◌,
}
use sumpnet.Gateway.Watch.{
  Update, Routed, Subscriber, wants, wants_body, deliver, deliver_all, fan_out, keep, at_sub,
  without, send_next, send_from,
}

pub if_keeps :
    {A : Type 0} (P : A → Type 0) (b : Bool) (x y : A) → P x → P y → P (if b then x else y)
if_keeps P true x y p q = p
if_keeps P false x y p q = q

-- The subscriber with the number n.
unfoldable pub sub_of :
    {S Storm M : Type 0} → ℕ → List (Subscriber S Storm M) → Option (Subscriber S Storm M)
sub_of n [] = none
sub_of n (s ∷ subs) = let rest = sub_of n subs in if s.id == n then some s else rest

module _ {S Storm M : Type 0} where
  -- All updates to a subscriber, in order: those sent, then those that wait.
  unfoldable pub stream : Subscriber S Storm M → List (Update S Storm M)
  stream s = s.sent ++ (s.first ++ s.channel)

  -- The updates of a round that a subscriber wants.
  unfoldable pub wanted :
      String → Option (List String) → List (Routed S Storm M) → List (Update S Storm M)
  wanted subject segments [] = []
  wanted subject segments (r ∷ updates) =
      let rest = wanted subject segments updates in
      if wants_body subject segments r.owners r.update.body then r.update ∷ rest else rest

  pub wanted-append :
      (subject : String) (segments : Option (List String)) (xs ys : List (Routed S Storm M))
      → wanted subject segments (xs ++ ys)
        ≡ wanted subject segments xs ++ wanted subject segments ys
  unfolding wanted
  wanted-append subject segments [] ys = refl
  wanted-append subject segments (r ∷ xs) ys =
      elim (Bool-cases (wants_body subject segments r.owners r.update.body)) [
        | inl e ↦ rw (e, wanted-append subject segments xs ys) refl
        | inr e ↦ rw (e, wanted-append subject segments xs ys) refl
      ]

  -- s1 is s after more updates, and who it is has not changed.
  pub record Grows (s s1 : Subscriber S Storm M) (more : List (Update S Storm M)) : Type 0 where
    pub same_id : s1.id ≡ s.id
    pub same_subject : s1.subject ≡ s.subject
    pub same_segments : s1.segments ≡ s.segments
    pub same_request : s1.has_snapshot ≡ s.has_snapshot
    pub grown : stream s1 ≡ stream s ++ more

  deliver-Grows :
      (buffer : ℕ) (s s1 : Subscriber S Storm M) (u : Update S Storm M)
      → deliver buffer s u ≡ some s1
      → s1 ≡ record s { channel = s.channel ++ u ∷ [] }
  unfolding deliver
  deliver-Grows buffer s s1 u h = elim (Bool-cases (ltb (length s.channel) buffer)) [
    | inl e ↦ cc (rw e at h)
    | inr e ↦ cc (rw e at h)
  ]

  queued_last :
      (sent first channel : List (Update S Storm M)) (u : Update S Storm M)
      (more : List (Update S Storm M))
      → (sent ++ (first ++ (channel ++ u ∷ []))) ++ more ≡ (sent ++ (first ++ channel)) ++ u ∷ more
  queued_last sent first channel u more =
      rw
        (
          append_assoc sent (first ++ (channel ++ u ∷ [])) more,
          append_assoc first (channel ++ u ∷ []) more,
          append_assoc channel (u ∷ []) more,
          append_assoc sent (first ++ channel) (u ∷ more),
          append_assoc first channel (u ∷ more),
        )
        refl

  one_more :
      (s s1 : Subscriber S Storm M) (u : Update S Storm M) (more : List (Update S Storm M))
      → Grows (record s { channel = s.channel ++ u ∷ [] }) s1 more
      → Grows s s1 (u ∷ more)
  unfolding stream
  one_more s s1 u more g = record {
    same_id = g.same_id;
    same_subject = g.same_subject;
    same_segments = g.same_segments;
    same_request = g.same_request;
    grown = g.grown ∙ queued_last s.sent s.first s.channel u more;
  }

  unchanged-Grows : (s : Subscriber S Storm M) → Grows s s []
  unchanged-Grows s = record {
    same_id = refl;
    same_subject = refl;
    same_segments = refl;
    same_request = refl;
    grown = rw (append_nil (stream s)) refl;
  }

  pub deliver_all-Grows :
      (buffer : ℕ) (updates : List (Routed S Storm M)) (s s1 : Subscriber S Storm M)
      → deliver_all buffer updates s ≡ some s1
      → Grows s s1 (wanted s.subject s.segments updates)
  unfolding deliver_all wanted wants
  deliver_all-Grows buffer [] s s1 h =
      subst (λ x. Grows s x []) (some-injective s s1 h) (unchanged-Grows s)
  deliver_all-Grows buffer (r ∷ updates) s s1 h =
      elim (Bool-cases (wants_body s.subject s.segments r.owners r.update.body)) [
        | inr e ↦ rw e (deliver_all-Grows buffer updates s s1 (rw e at h))
        | inl e ↦ elim (Option-cases (deliver buffer s r.update)) [
          | inl d ↦ cc (rw (e, d) at h)
          | inr d ↦
              let s2 = record s { channel = s.channel ++ r.update ∷ [] } in
              let same : d.0 ≡ s2 = deliver-Grows buffer s d.0 r.update d.1 in
              let k : deliver_all buffer updates s2 ≡ some s1 = rw (e, d.1, same) at h in
              rw e (
                one_more s s1 r.update (wanted s.subject s.segments updates)
                  (deliver_all-Grows buffer updates s2 s1 k))
        ]
      ]

  -- Something that holds of every subscriber.
  abbrev pub EverySub : (Subscriber S Storm M → Type 0) → List (Subscriber S Storm M) → Type 0
  EverySub P [] = Unit
  EverySub P (s ∷ subs) = P s × EverySub P subs

  keep-EverySub :
      (Q : Subscriber S Storm M → Type 0) (o : Option (Subscriber S Storm M))
      (subs : List (Subscriber S Storm M))
      → ((s1 : Subscriber S Storm M) → o ≡ some s1 → Q s1)
      → EverySub Q subs
      → EverySub Q (keep o subs)
  keep-EverySub Q none subs q h = h
  keep-EverySub Q (some s) subs q h = (q s refl, h)

  pub fan_out-EverySub :
      (P Q : Subscriber S Storm M → Type 0) (buffer : ℕ) (updates : List (Routed S Storm M))
      → ((s s1 : Subscriber S Storm M)
          → P s
          → Grows s s1 (wanted s.subject s.segments updates)
          → Q s1)
      → (subs : List (Subscriber S Storm M)) → EverySub P subs
      → EverySub Q (fan_out buffer updates subs)
  unfolding fan_out
  fan_out-EverySub P Q buffer updates step [] h = tt
  fan_out-EverySub P Q buffer updates step (s ∷ subs) h =
      keep-EverySub Q (deliver_all buffer updates s) (fan_out buffer updates subs)
        (λ s1 e. step s s1 h.0 (deliver_all-Grows buffer updates s s1 e))
        (fan_out-EverySub P Q buffer updates step subs h.1)

  pub EverySub-append :
      (P : Subscriber S Storm M → Type 0) (subs : List (Subscriber S Storm M))
      (s : Subscriber S Storm M)
      → EverySub P subs
      → P s
      → EverySub P (subs ++ s ∷ [])
  EverySub-append P [] s h k = (k, tt)
  EverySub-append P (x ∷ subs) s h k = (h.0, EverySub-append P subs s h.1 k)

  pub at_sub-EverySub :
      (P : Subscriber S Storm M → Type 0) (n : ℕ) (f : Subscriber S Storm M → Subscriber S Storm M)
      → ((s : Subscriber S Storm M) → P s → P (f s))
      → (subs : List (Subscriber S Storm M)) → EverySub P subs
      → EverySub P (at_sub n f subs)
  unfolding at_sub
  at_sub-EverySub P n f step [] h = tt
  at_sub-EverySub P n f step (s ∷ subs) h =
      (if_keeps P (s.id == n) (f s) s (step s h.0) h.0, at_sub-EverySub P n f step subs h.1)

  pub without-EverySub :
      (P : Subscriber S Storm M → Type 0) (n : ℕ) (subs : List (Subscriber S Storm M))
      → EverySub P subs
      → EverySub P (without n subs)
  unfolding without
  without-EverySub P n [] h = tt
  without-EverySub P n (s ∷ subs) h =
      if_keeps (EverySub P) (s.id == n) (without n subs) (s ∷ without n subs)
        (without-EverySub P n subs h.1) (h.0, without-EverySub P n subs h.1)

  -- What holds of every subscriber holds of the one with a number.
  pub sub_of-EverySub :
      (P : Subscriber S Storm M → Type 0) (n : ℕ) (subs : List (Subscriber S Storm M))
      (s : Subscriber S Storm M)
      → EverySub P subs
      → sub_of n subs ≡ some s
      → P s
  unfolding sub_of
  sub_of-EverySub P n [] s h k = cc
  sub_of-EverySub P n (x ∷ subs) s h k = elim (Bool-cases (x.id == n)) [
    | inl e ↦ subst P (some-injective x s (rw e at k)) h.0
    | inr e ↦ sub_of-EverySub P n subs s h.1 (rw e at k)
  ]

  sent_first :
      (sent first rest channel : List (Update S Storm M)) (u : Update S Storm M)
      → first ≡ u ∷ rest
      → (sent ++ u ∷ []) ++ (rest ++ channel) ≡ sent ++ (first ++ channel)
  sent_first sent first rest channel u e = rw (e, append_assoc sent (u ∷ []) (rest ++ channel)) refl

  sent_queued :
      (sent first channel rest : List (Update S Storm M)) (u : Update S Storm M)
      → first ≡ []
      → channel ≡ u ∷ rest
      → (sent ++ u ∷ []) ++ (first ++ rest) ≡ sent ++ (first ++ channel)
  sent_queued sent first channel rest u e d = rw (e, d, append_assoc sent (u ∷ []) rest) refl

  send_from-stream :
      (first channel : List (Update S Storm M)) (s : Subscriber S Storm M)
      → s.first ≡ first
      → s.channel ≡ channel
      → stream (send_from first channel s) ≡ stream s
  unfolding stream
  send_from-stream (u ∷ rest) channel s e d = sent_first s.sent s.first rest s.channel u e
  send_from-stream [] (u ∷ rest) s e d = sent_queued s.sent s.first s.channel rest u e d
  send_from-stream [] [] s e d = refl

  -- Who the subscriber is.
  abbrev pub SameSub : Subscriber S Storm M → Subscriber S Storm M → Type 0
  SameSub s s1 =
      (s1.subject ≡ s.subject) × (s1.segments ≡ s.segments) × (s1.has_snapshot ≡ s.has_snapshot)

  send_from-SameSub :
      (first channel : List (Update S Storm M)) (s : Subscriber S Storm M)
      → SameSub s (send_from first channel s)
  send_from-SameSub (u ∷ rest) channel s = (refl, refl, refl)
  send_from-SameSub [] (u ∷ rest) s = (refl, refl, refl)
  send_from-SameSub [] [] s = (refl, refl, refl)

  pub send_next-SameSub : (s : Subscriber S Storm M) → SameSub s (send_next s)
  unfolding send_next
  send_next-SameSub s = send_from-SameSub s.first s.channel s

  -- Sending moves updates from what waits to what was sent.
  pub send_next-stream : (s : Subscriber S Storm M) → stream (send_next s) ≡ stream s
  unfolding send_next
  send_next-stream s = send_from-stream s.first s.channel s refl refl
