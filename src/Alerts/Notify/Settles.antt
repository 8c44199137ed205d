-- ===== src/Alerts/Notify/Settles.antt =====
-- A round against its meaning on the rows: every due notification is handed over and marked once.
use sumpnet.Prelude.{
  ℕ, ◌+◌, ◌≡◌, ◌≤◌, refl, sym, ap, Bool, List, [], ◌∷◌, ◌++◌, Option, none, some, map, ◌==◌, ◌∙◌,
  length, take, append_nil, append_assoc,
}
use sumpnet.Alerts.Table.{
  Alert, raise_marked, resolve_marked, mark_raise_notification, mark_resolve_notification,
  update_where,
}
use sumpnet.Alerts.Table.Invariant.{ids, Distinct}
use sumpnet.Alerts.Notify.{
  Config, Mail, Mailing, outcome, Faults, is_raised, is_resolved, message_for, raise_due,
  resolve_due, raised_before, resolved_before, select_by, pending_raises, pending_resolves,
  round_limit, deliver, mark_raises, mark_resolves, raises_round, resolves_round, stop_on, run_once,
}
use sumpnet.Alerts.Notify.Mails.{count, due_mails, mails, count-append, count-select}
use sumpnet.Alerts.Notify.Marks.{
  apply, settle, apply-select, update-apply, map-settle-ids, take_all,
}

map_same : (rows : List Alert) → map (λ b. b) rows ≡ rows
map_same [] = refl
map_same (b ∷ rows) = ap (λ l. b ∷ l) (map_same rows)

stop_on-none :
    {E : Type 0} (failure : Option E) (n : Mailing) (next : Mailing × Option E)
    → (stop_on failure n next).1 ≡ none
    → (failure ≡ none) × (stop_on failure n next ≡ next)
stop_on-none none n next h = (refl, refl)
stop_on-none (some e) n next h = cc

-- The mark on b that the delivery of a's raise notification makes, and its resolve notification's.
module _ (accepts : Mail → Bool) (now : ℕ) where
  abbrev pub raise_mark : Alert → Alert → Alert
  raise_mark a b = raise_marked (outcome accepts (message_for a is_raised)) now b

  abbrev pub resolve_mark : Alert → Alert → Alert
  resolve_mark a b = resolve_marked (outcome accepts (message_for a is_resolved)) now b

  -- The rows after the due raise notifications were delivered, and after the resolve ones were.
  abbrev pub raises_settled : Config → List Alert → List Alert
  raises_settled cfg rows = map (settle (raise_mark) (raise_due cfg now)) rows

  abbrev pub resolves_settled : Config → List Alert → List Alert
  resolves_settled cfg rows = map (settle (resolve_mark) (resolve_due cfg now)) rows

-- A loop that ended well, with these rows and these mails.
abbrev ends : {E : Type 0} → Mailing → List Alert → List Mail → Mailing × Option E
ends n rows handed = (record { table = record n.table { rows = rows }; handed = handed }, none)

module _ {E : Type 0} (accepts : Mail → Bool) (faults : Faults E) (now : ℕ) where
  mark_raises-apply :
      (raises : List Alert) (n : Mailing)
      → (mark_raises accepts faults now raises n).1 ≡ none
      → mark_raises accepts faults now raises n
        ≡ ends n
            (map (apply (raise_mark accepts now) raises) n.table.rows)
            (n.handed ++ mails is_raised raises)
  unfolding mark_raises mark_raise_notification deliver
  mark_raises-apply [] n h = rw (map_same n.table.rows, append_nil n.handed) refl
  mark_raises-apply (a ∷ raises) n h =
      let f = raise_mark accepts now a in
      let m = message_for a is_raised in
      let n1 : Mailing = record n { handed = n.handed ++ m ∷ [] } in
      let marked = record n.table { rows = update_where (λ b. b.id == a.id) f n.table.rows } in
      let n2 : Mailing = record n1 { table = marked } in
      let (fine, same) =
        stop_on-none (faults.mark_raise a.id) n1 (mark_raises accepts faults now raises n2) h in
      same
      ∙ mark_raises-apply raises n2 (sym (ap (λ x. x.1) same) ∙ h)
      ∙ ap (λ rows. ends n rows ((n.handed ++ m ∷ []) ++ mails is_raised raises))
          (update-apply (raise_mark accepts now) (λ x y. refl) f a raises n.table.rows (λ b. refl))
      ∙ ap (ends n (map (apply (raise_mark accepts now) (a ∷ raises)) n.table.rows))
          (append_assoc n.handed (m ∷ []) (mails is_raised raises))

  mark_resolves-apply :
      (resolves : List Alert) (n : Mailing)
      → (mark_resolves accepts faults now resolves n).1 ≡ none
      → mark_resolves accepts faults now resolves n
        ≡ ends n
            (map (apply (resolve_mark accepts now) resolves) n.table.rows)
            (n.handed ++ mails is_resolved resolves)
  unfolding mark_resolves mark_resolve_notification deliver
  mark_resolves-apply [] n h = rw (map_same n.table.rows, append_nil n.handed) refl
  mark_resolves-apply (a ∷ resolves) n h =
      let f = resolve_mark accepts now a in
      let m = message_for a is_resolved in
      let n1 : Mailing = record n { handed = n.handed ++ m ∷ [] } in
      let marked = record n.table { rows = update_where (λ b. b.id == a.id) f n.table.rows } in
      let n2 : Mailing = record n1 { table = marked } in
      let (fine, same) =
        stop_on-none (faults.mark_resolve a.id) n1 (mark_resolves accepts faults now resolves n2)
          h in
      same
      ∙ mark_resolves-apply resolves n2 (sym (ap (λ x. x.1) same) ∙ h)
      ∙ ap (λ rows. ends n rows ((n.handed ++ m ∷ []) ++ mails is_resolved resolves))
          (update-apply (resolve_mark accepts now) (λ x y. refl) f a resolves n.table.rows
            (λ b. refl))
      ∙ ap (ends n (map (apply (resolve_mark accepts now) (a ∷ resolves)) n.table.rows))
          (append_assoc n.handed (m ∷ []) (mails is_resolved resolves))

  raises_round-settled :
      (cfg : Config) (n : Mailing)
      → Distinct (ids n.table.rows)
      → length (select_by (raise_due cfg now) raised_before n.table.rows) ≤ round_limit
      → (raises_round accepts faults now cfg n).1 ≡ none
      → raises_round accepts faults now cfg n
        ≡ ends n
            (raises_settled accepts now cfg n.table.rows)
            (n.handed ++ mails is_raised (select_by (raise_due cfg now) raised_before n.table.rows))
  unfolding raises_round pending_raises
  raises_round-settled cfg n d few h =
      let due = select_by (raise_due cfg now) raised_before n.table.rows in
      let (fine, same) =
        stop_on-none faults.list_raises n (mark_raises accepts faults now (take round_limit due) n)
          h in
      same
      ∙ mark_raises-apply (take round_limit due) n (sym (ap (λ x. x.1) same) ∙ h)
      ∙ ap
          (λ l.
            ends n (map (apply (raise_mark accepts now) l) n.table.rows)
              (n.handed ++ mails is_raised l))
          (take_all round_limit due few)
      ∙ ap (λ rows. ends n rows (n.handed ++ mails is_raised due))
          (apply-select (raise_mark accepts now) (λ x y. refl) (raise_due cfg now) raised_before
            n.table.rows d)

  resolves_round-settled :
      (cfg : Config) (n : Mailing)
      → Distinct (ids n.table.rows)
      → length (select_by (resolve_due cfg now) resolved_before n.table.rows) ≤ round_limit
      → (resolves_round accepts faults now cfg n).1 ≡ none
      → resolves_round accepts faults now cfg n
        ≡ ends n (resolves_settled accepts now cfg n.table.rows) (
            n.handed
            ++ mails is_resolved (select_by (resolve_due cfg now) resolved_before n.table.rows))
  unfolding resolves_round pending_resolves
  resolves_round-settled cfg n d few h =
      let due = select_by (resolve_due cfg now) resolved_before n.table.rows in
      let (fine, same) =
        stop_on-none faults.list_resolves n
          (mark_resolves accepts faults now (take round_limit due) n) h in
      same
      ∙ mark_resolves-apply (take round_limit due) n (sym (ap (λ x. x.1) same) ∙ h)
      ∙ ap
          (λ l.
            ends n (map (apply (resolve_mark accepts now) l) n.table.rows)
              (n.handed ++ mails is_resolved l))
          (take_all round_limit due few)
      ∙ ap (λ rows. ends n rows (n.handed ++ mails is_resolved due))
          (apply-select (resolve_mark accepts now) (λ x y. refl) (resolve_due cfg now)
            resolved_before n.table.rows d)

  -- What a round leaves: the table, and how many mails of any kind were handed to the notifier.
  pub record Settled (cfg : Config) (n n1 : Mailing) : Type 0 where
    pub table : n1.table ≡ record n.table {
      rows = resolves_settled accepts now cfg (raises_settled accepts now cfg n.table.rows);
    }
    pub handed :
        (p : Mail → Bool)
        → count p n1.handed
          ≡ count p n.handed
            + count p (due_mails is_raised (raise_due cfg now) n.table.rows)
            + count p (
                due_mails is_resolved
                  (resolve_due cfg now)
                  (raises_settled accepts now cfg n.table.rows))

  -- A round of the notifier that ends without an error, in a table with distinct ids where at most a
  -- hundred notifications of each kind are due, hands the mail of every due raise notification and
  -- of every due resolve notification to the notifier exactly once and no other mail, marks each
  -- due row as sent or failed by the answer to its own mail, the raises first, and leaves all other
  -- rows as they were.
  pub run_once-Settled :
      (cfg : Config) (n : Mailing)
      → Distinct (ids n.table.rows)
      → length (select_by (raise_due cfg now) raised_before n.table.rows) ≤ round_limit
      → length (
          select_by
            (resolve_due cfg now)
            resolved_before
            (raises_settled accepts now cfg n.table.rows))
        ≤ round_limit
      → (run_once accepts faults now cfg n).1 ≡ none
      → Settled cfg n (run_once accepts faults now cfg n).0
  unfolding run_once
  run_once-Settled cfg n d few few' h =
      let (n1, failure) = raises_round accepts faults now cfg n in
      let (fine, same) = stop_on-none failure n1 (resolves_round accepts faults now cfg n1) h in
      let first = raises_round-settled cfg n d few fine in
      let rows = raises_settled accepts now cfg n.table.rows in
      let raised = mails is_raised (select_by (raise_due cfg now) raised_before n.table.rows) in
      let resolved = mails is_resolved (select_by (resolve_due cfg now) resolved_before rows) in
      let n2 : Mailing = record {
        table = record n.table { rows = rows };
        handed = n.handed ++ raised;
      } in
      let same_ids : Distinct (ids rows) =
        rw (map-settle-ids (raise_mark accepts now) (λ x y. refl) (raise_due cfg now) n.table.rows)
          d in
      let next : stop_on failure n1 (resolves_round accepts faults now cfg n1)
          ≡ resolves_round accepts faults now cfg n2 =
        same ∙ ap (resolves_round accepts faults now cfg) (ap (λ x. x.0) first) in
      let end = next ∙ resolves_round-settled cfg n2 same_ids few' (sym (ap (λ x. x.1) next) ∙ h) in
      record {
        table = ap (λ x. x.0.table) end;
        handed = λ p.
            ap (λ x. count p x.0.handed) end
            ∙ count-append p (n.handed ++ raised) resolved
            ∙ ap (λ k. k + count p resolved) (count-append p n.handed raised)
            ∙ ap (λ k. count p n.handed + k + count p resolved)
                (count-select p is_raised (raise_due cfg now) raised_before n.table.rows)
            ∙ ap
                (λ k.
                  count p n.handed
                  + count p (due_mails is_raised (raise_due cfg now) n.table.rows)
                  + k)
                (count-select p is_resolved (resolve_due cfg now) resolved_before rows);
      }
