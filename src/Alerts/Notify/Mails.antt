-- ===== src/Alerts/Notify/Mails.antt =====
-- How many mails of any kind a selection of rows gives, whatever its order.
use sumpnet.Prelude.{
  ℕ, suc, ◌+◌, ◌≡◌, refl, Bool, true, false, List, [], ◌∷◌, ◌++◌, map, if◌then◌else◌, Bool-cases,
  inl, inr, arith,
}
use sumpnet.Alerts.Table.{Alert}
use sumpnet.Alerts.Notify.{Mail, NotifyEvent, message_for, place, select_by}

-- How many mails of a kind are in a list?
unfoldable pub count : (Mail → Bool) → List Mail → ℕ
count p [] = 0
count p (m ∷ mails) = let rest = count p mails in if p m then suc rest else rest

-- The mails of the due rows.
unfoldable pub due_mails : NotifyEvent → (Alert → Bool) → List Alert → List Mail
due_mails event due [] = []
due_mails event due (a ∷ rows) =
    let rest = due_mails event due rows in if due a then message_for a event ∷ rest else rest

abbrev pub mails : NotifyEvent → List Alert → List Mail
mails event rows = map (λ a. message_for a event) rows

pub count-append :
    (p : Mail → Bool) (xs ys : List Mail) → count p (xs ++ ys) ≡ count p xs + count p ys
unfolding count
count-append p [] ys = omega arith
count-append p (m ∷ xs) ys = elim (Bool-cases (p m)) [
  | inl e ↦ rw e (omega (arith, count-append p xs ys))
  | inr e ↦ rw e (count-append p xs ys)
]

count-place :
    (p : Mail → Bool) (event : NotifyEvent) (before : Alert → Alert → Bool) (a : Alert)
    (rows : List Alert)
    → count p (mails event (place before a rows)) ≡ count p (mails event (a ∷ rows))
unfolding place count
count-place p event before a [] = refl
count-place p event before a (b ∷ rows) = elim (Bool-cases (before a b)) [
  | inl e ↦ rw e refl
  | inr e ↦ rw (e, count-place p event before a rows) (swap (p (message_for a event)) _ _)
]
  where
    swap :
        (x y : Bool) (n : ℕ)
        → (if y then suc (if x then suc n else n) else (if x then suc n else n))
          ≡ (if x then suc (if y then suc n else n) else (if y then suc n else n))
    swap true true n = refl
    swap true false n = refl
    swap false true n = refl
    swap false false n = refl

-- The selection in order has each due row's mail as often as the table has it.
pub count-select :
    (p : Mail → Bool) (event : NotifyEvent) (due : Alert → Bool) (before : Alert → Alert → Bool)
    (rows : List Alert)
    → count p (mails event (select_by due before rows)) ≡ count p (due_mails event due rows)
unfolding select_by due_mails count
count-select p event due before [] = refl
count-select p event due before (a ∷ rows) = elim (Bool-cases (due a)) [
  | inl e ↦
      let own = count-place p event before a (select_by due before rows) in
      rw (e, own, count-select p event due before rows) refl
  | inr e ↦ rw (e, count-select p event due before rows) refl
]
