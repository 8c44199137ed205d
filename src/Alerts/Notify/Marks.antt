-- ===== src/Alerts/Notify/Marks.antt =====
-- Marking the rows of an ordered selection one after another is marking each selected row in place.
use sumpnet.Prelude.{
  ℕ, zero, suc, ◌≡◌, ◌≢◌, ◌≤◌, refl, sym, ap, Bool, true, false, List, [], ◌∷◌, map, ◌==◌, ==_iff,
  if◌then◌else◌, Bool-cases, inl, inr, ◌∙◌, length, take, arith,
}
use sumpnet.Alerts.Table.{Alert, update_where}
use sumpnet.Alerts.Table.Invariant.{ids, Fresh, Distinct}
use sumpnet.Alerts.Notify.{place, select_by}

pub take_all : {A : Type 0} (n : ℕ) (xs : List A) → length xs ≤ n → take n xs ≡ xs
take_all zero [] h = refl
take_all zero (x ∷ xs) h = absurd (omega arith)
take_all (suc n) [] h = refl
take_all (suc n) (x ∷ xs) h = ap (λ l. x ∷ l) (take_all n xs (omega arith))

other_id : (m n : ℕ) → m ≢ n → (m == n) ≡ false
other_id m n h = elim (Bool-cases (m == n)) [ inl e ↦ absurd (h ((==_iff m n).0 e)) | inr e ↦ e ]

not_same : (m n : ℕ) → (m == n) ≡ false → m ≢ n
not_same m n h e = ground arith

same_id : (n : ℕ) → (n == n) ≡ true
same_id n = (==_iff n n).1 refl

both : {A : Type 0} {x y : A} {xs ys : List A} → x ≡ y → xs ≡ ys → x ∷ xs ≡ y ∷ ys
both e d = rw (e, d) refl

picked :
    (due : Alert → Bool) (before : Alert → Alert → Bool) (a : Alert) (rows : List Alert)
    → due a ≡ true
    → select_by due before (a ∷ rows) ≡ place before a (select_by due before rows)
unfolding select_by
picked due before a rows e = rw e refl

passed :
    (due : Alert → Bool) (before : Alert → Alert → Bool) (a : Alert) (rows : List Alert)
    → due a ≡ false
    → select_by due before (a ∷ rows) ≡ select_by due before rows
unfolding select_by
passed due before a rows e = rw e refl

module _ (mark : Alert → Alert → Alert) where
  -- The mark of the row a on the row b, which it changes if they have the same id.
  abbrev pub once : Alert → Alert → Alert
  once a b = if b.id == a.id then mark a b else b

  -- The marks of a list of rows, one after another.
  abbrev pub apply : List Alert → Alert → Alert
  apply [] b = b
  apply (a ∷ marked) b = apply marked (once a b)

  -- The row in place: marked by itself, if it is due.
  abbrev pub settle : (Alert → Bool) → Alert → Alert
  settle due b = if due b then mark b b else b

module _ (mark : Alert → Alert → Alert) (keeps : (a b : Alert) → (mark a b).id ≡ b.id) where
  once_other : (a b : Alert) → b.id ≢ a.id → once mark a b ≡ b
  once_other a b h = rw (other_id b.id a.id h) refl

  once-id : (a b : Alert) → (once mark a b).id ≡ b.id
  once-id a b = elim (Bool-cases (b.id == a.id)) [ inl e ↦ rw e (keeps a b) | inr e ↦ rw e refl ]

  swap : (a c b : Alert) → c.id ≢ a.id → once mark c (once mark a b) ≡ once mark a (once mark c b)
  swap a c b h = elim (Bool-cases (b.id == a.id)) [
    | inl e ↦
        let mine : b.id ≡ a.id = (==_iff b.id a.id).0 e in
        let apart : b.id ≢ c.id = λ d. h (sym d ∙ mine) in
        once_other c (once mark a b) (λ d. apart (sym (once-id a b) ∙ d))
        ∙ sym (ap (once mark a) (once_other c b apart))
    | inr e ↦
        let apart : b.id ≢ a.id = λ d. not_same b.id a.id e d in
        ap (once mark c) (once_other a b apart)
        ∙ sym (once_other a (once mark c b) (λ d. apart (sym (once-id c b) ∙ d)))
  ]

  apply-absent :
      (marked : List Alert) (b : Alert) → Fresh b.id (ids marked) → apply mark marked b ≡ b
  apply-absent [] b h = refl
  apply-absent (a ∷ marked) b h = rw (once_other a b (λ e. h.0 (sym e))) (apply-absent marked b h.1)

  apply-place :
      (before : Alert → Alert → Bool) (a : Alert) (marked : List Alert) (b : Alert)
      → Fresh a.id (ids marked)
      → apply mark (place before a marked) b ≡ apply mark marked (once mark a b)
  unfolding place
  apply-place before a [] b h = refl
  apply-place before a (c ∷ marked) b h = elim (Bool-cases (before a c)) [
    | inl e ↦ rw e refl
    | inr e ↦
        rw (e, apply-place before a marked (once mark c b) h.1)
          (ap (apply mark marked) (sym (swap a c b h.0)))
  ]

  Fresh-place :
      (before : Alert → Alert → Bool) (n : ℕ) (a : Alert) (marked : List Alert)
      → a.id ≢ n
      → Fresh n (ids marked)
      → Fresh n (ids (place before a marked))
  unfolding place
  Fresh-place before n a [] d h = (d, tt)
  Fresh-place before n a (c ∷ marked) d h = elim (Bool-cases (before a c)) [
    | inl e ↦ rw e (d, h)
    | inr e ↦ rw e (h.0, Fresh-place before n a marked d h.1)
  ]

  Fresh-select :
      (due : Alert → Bool) (before : Alert → Alert → Bool) (n : ℕ) (rows : List Alert)
      → Fresh n (ids rows)
      → Fresh n (ids (select_by due before rows))
  unfolding select_by
  Fresh-select due before n [] h = tt
  Fresh-select due before n (a ∷ rows) h =
      let rest = Fresh-select due before n rows h.1 in
      elim (Bool-cases (due a)) [
        | inl e ↦ rw e (Fresh-place before n a (select_by due before rows) h.0 rest)
        | inr e ↦ rw e rest
      ]

  in_place : (due : Alert → Bool) (b : Alert) → due b ≡ true → settle mark due b ≡ mark b b
  in_place due b e = rw e refl

  left_alone : (due : Alert → Bool) (b : Alert) → due b ≡ false → settle mark due b ≡ b
  left_alone due b e = rw e refl

  map-place :
      (before : Alert → Alert → Bool) (a : Alert) (marked rows : List Alert)
      → Fresh a.id (ids marked)
      → Fresh a.id (ids rows)
      → map (apply mark (place before a marked)) rows ≡ map (apply mark marked) rows
  map-place before a marked [] f h = refl
  map-place before a marked (b ∷ rows) f h =
      let skip = apply-place before a marked b f ∙ ap (apply mark marked) (once_other a b h.0) in
      rw (skip, map-place before a marked rows f h.1) refl

  -- Marking the selected rows in order marks each due row by itself.
  pub apply-select :
      (due : Alert → Bool) (before : Alert → Alert → Bool) (rows : List Alert)
      → Distinct (ids rows)
      → map (apply mark (select_by due before rows)) rows ≡ map (settle mark due) rows
  apply-select due before [] h = refl
  apply-select due before (a ∷ rows) h =
      let chosen = select_by due before rows in
      let fresh = Fresh-select due before a.id rows h.0 in
      let rest = apply-select due before rows h.1 in
      elim (Bool-cases (due a)) [
        | inl e ↦
            let own : once mark a a ≡ mark a a = rw (same_id a.id) refl in
            let first =
              apply-place before a chosen a fresh
              ∙ ap (apply mark chosen) own
              ∙ apply-absent chosen (mark a a) (rw (keeps a a) fresh) in
            ap (λ l. map (apply mark l) (a ∷ rows)) (picked due before a rows e)
            ∙ both (first ∙ sym (in_place due a e))
                (map-place before a chosen rows fresh h.0 ∙ rest)
        | inr e ↦
            ap (λ l. map (apply mark l) (a ∷ rows)) (passed due before a rows e)
            ∙ both (apply-absent chosen a fresh ∙ sym (left_alone due a e)) rest
      ]

  -- One mark, by an update of the row with the id, and then the others.
  pub update-apply :
      (f : Alert → Alert) (a : Alert) (marked rows : List Alert)
      → ((b : Alert) → f b ≡ mark a b)
      → map (apply mark marked) (update_where (λ b. b.id == a.id) f rows)
        ≡ map (apply mark (a ∷ marked)) rows
  unfolding update_where
  update-apply f a marked [] h = refl
  update-apply f a marked (b ∷ rows) h = rw (h b, update-apply f a marked rows h) refl

  pub map-settle-ids :
      (due : Alert → Bool) (rows : List Alert) → ids (map (settle mark due) rows) ≡ ids rows
  map-settle-ids due [] = refl
  map-settle-ids due (b ∷ rows) = elim (Bool-cases (due b)) [
    | inl e ↦ rw (e, keeps b b, map-settle-ids due rows) refl
    | inr e ↦ rw (e, map-settle-ids due rows) refl
  ]
