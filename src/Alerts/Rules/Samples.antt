-- ===== src/Alerts/Rules/Samples.antt =====
-- The samples, the rise and the rain that the outage rule of internal/alerts/rules.go looks at, in
-- terms of what the handler keeps and the queries return.
use sumpnet.Prelude.{
  ℕ, ◌+◌, ◌≡◌, ◌≤◌, ◌<◌, ◌⊎◌, refl, ap, subst, ◌∙◌, Bool, true, false, List, [], ◌∷◌, ◌++◌, none,
  some, arith, Option-cases, inl, inr, if◌then◌else◌,
}
use sumpnet.Prelude.Result.{Result, ok, err, bind-ok, ok_inj, ◌>>=◌}
use sumpnet.Hydrology.{level_rising}
use sumpnet.Alerts.Engine.{Config, Clock, seed_levels_failed, rain_near_failed}
use sumpnet.Alerts.Rules.{
  Queries, Reading, LevelSample, Handler, RainCheck, RainRow, rain_term, samples, seed_samples,
  last_three, holds, lift,
}

-- A reading of the list without mains gave the sample.
abbrev pub IsSeen : List Reading → LevelSample → Type 0
IsSeen [] a = ⊥
IsSeen (r ∷ readings) a =
    ((r.mains_ok ≡ false) × (a.ts ≡ r.ts) × (a.dist ≡ r.level_mm)) ⊎ IsSeen readings a

abbrev All : (LevelSample → Type 0) → List LevelSample → Type 0
All P [] = Unit
All P (a ∷ s) = P a × All P s

All-map :
    {P Q : LevelSample → Type 0} (s : List LevelSample)
    → ((a : LevelSample) → P a → Q a)
    → All P s
    → All Q s
All-map [] f h = tt
All-map (a ∷ s) f h = (f a h.0, All-map s f h.1)

All-append :
    (P : LevelSample → Type 0) (s : List LevelSample) (x : LevelSample)
    → All P s
    → P x
    → All P (s ++ x ∷ [])
All-append P [] x h p = (p, tt)
All-append P (a ∷ s) x h p = (h.0, All-append P s x h.1 p)

All-last :
    (P : LevelSample → Type 0) (before : List LevelSample) (a b : LevelSample)
    → All P (before ++ a ∷ b ∷ [])
    → P a × P b
All-last P [] a b h = (h.0, h.1.0)
All-last P (x ∷ before) a b h = All-last P before a b h.1

with_reading :
    (r : Reading) (prev : List Reading) (s : List LevelSample) (b : Bool)
    → r.mains_ok ≡ b
    → All (IsSeen prev) s
    → All (IsSeen (r ∷ prev)) (if b then s else s ++ record { ts = r.ts; dist = r.level_mm } ∷ [])
with_reading r prev s true e h = All-map s (λ a p. inr p) h
with_reading r prev s false e h =
    All-append (IsSeen (r ∷ prev)) s _ (All-map s (λ a p. inr p) h) (inl (e, refl, refl))

seed_samples-All : (prev : List Reading) → All (IsSeen prev) (seed_samples prev)
unfolding seed_samples
seed_samples-All [] = tt
seed_samples-All (r ∷ prev) =
    with_reading r prev (seed_samples prev) r.mains_ok refl (seed_samples-All prev)

-- The samples kept end in a and b.
abbrev pub EndsIn : List LevelSample → LevelSample → LevelSample → Type 0
EndsIn s a b = (before : List LevelSample) × (s ≡ before ++ a ∷ b ∷ [])

last_three-EndsIn :
    (s : List LevelSample) (x a b c : LevelSample)
    → last_three (s ++ x ∷ []) ≡ a ∷ b ∷ c ∷ []
    → EndsIn s a b × (c ≡ x)
unfolding last_three
last_three-EndsIn [] x a b c e = cc
last_three-EndsIn (y ∷ []) x a b c e = cc
last_three-EndsIn (y ∷ z ∷ []) x a b c e = (([], cc), cc)
last_three-EndsIn (y ∷ z ∷ w ∷ []) x a b c e =
    let ((before, same), last) = last_three-EndsIn (z ∷ w ∷ []) x a b c e in
    ((y ∷ before, ap (λ l. y ∷ l) same), last)
last_three-EndsIn (y ∷ z ∷ w ∷ v ∷ s) x a b c e =
    let ((before, same), last) = last_three-EndsIn (z ∷ w ∷ v ∷ s) x a b c e in
    ((y ∷ before, ap (λ l. y ∷ l) same), last)

-- Each distance is below the one before it, and the water rose by the total at least.
pub record Rises (min_total first middle last : ℕ) : Type 0 where
  pub once : middle < first
  pub twice : last < middle
  pub total : last + min_total ≤ first

pub level_rising-Rises :
    (min_total first middle last : ℕ)
    → level_rising (first ∷ middle ∷ last ∷ []) min_total ≡ true
    → Rises min_total first middle last
unfolding level_rising
level_rising-Rises m a b c e = record {
  once = ground arith;
  twice = ground arith;
  total = ground arith;
}

lift-ok : {F B A : Type 0} (f : F → B) (res : Result F A) (a : A) → lift f res ≡ ok a → res ≡ ok a
lift-ok f (ok b) a e = cc
lift-ok f (err x) a e = cc

module _ {E : Type 0} (q : Queries E) (cfg : Config) (clock : Clock) where
  -- The two samples before a reading's: the last ones that the handler keeps of the device or, if it
  -- keeps none, of earlier readings without mains.
  abbrev pub Before : Handler → Reading → LevelSample → LevelSample → Type 0
  Before h r a b =
      ((s : List LevelSample) × (h.levels r.device_id ≡ some s) × EndsIn s a b)
      ⊎ ((h.levels r.device_id ≡ none)
          × (prev : List Reading) × (q.readings_before r.device_id r.ts ≡ ok prev)
          × IsSeen prev a
          × IsSeen prev b)

  pub samples-Before :
      (h : Handler) (r : Reading) (a b c : LevelSample)
      → samples q cfg clock h r ≡ ok (a ∷ b ∷ c ∷ [])
      → Before h r a b × (c.ts ≡ r.ts) × (c.dist ≡ r.level_mm)
  unfolding samples
  samples-Before h r a b c e =
      let (s, e1, e2) =
        bind-ok
          (elim (h.levels r.device_id) [
            | some s ↦ ok s
            | none ↦ lift seed_levels_failed (q.readings_before r.device_id r.ts) >>= λ prev.
                ok (seed_samples prev)
          ])
          _ (a ∷ b ∷ c ∷ []) e in
      let (ends, last) = last_three-EndsIn s _ a b c (ok_inj _ _ e2) in
      let now : (c.ts ≡ r.ts) × (c.dist ≡ r.level_mm) =
        (ap (λ x. x.ts) last, ap (λ x. x.dist) last) in
      elim (Option-cases (h.levels r.device_id)) [
        | inr (kept, k) ↦
            let same : kept ≡ s = ok_inj _ _ (rw k at e1) in
            (inl (s, k ∙ ap some same, ends), now.0, now.1)
        | inl k ↦
            let (prev, e3, e4) =
              bind-ok (lift seed_levels_failed (q.readings_before r.device_id r.ts)) _ s
                (rw k at e1) in
            let seen =
              All-last (IsSeen prev) ends.0 a b
                (subst (All (IsSeen prev)) (ok_inj _ _ e4 ∙ ends.1) (seed_samples-All prev)) in
            (inr (k, prev, lift-ok seed_levels_failed _ prev e3, seen.0, seen.1), now.0, now.1)
      ]

  -- Rain was recorded, or the record and its slack do not reach the time.
  pub rain_term-holds :
      (at : ℕ) (rain : RainCheck)
      → rain_term q cfg clock at ≡ ok rain
      → holds rain ≡ true
      → (row : RainRow) × (q.rain_near at ≡ ok row)
        × ((0 < row.mm) ⊎ (row.covered_until + cfg.rain_coverage_slack < at))
  unfolding rain_term holds
  rain_term-holds at rain e h =
      let (row, e1, e2) = bind-ok (lift rain_near_failed (q.rain_near at)) _ rain e in
      let same = ok_inj _ rain e2 in (row, lift-ok rain_near_failed _ row e1, ground (arith, same))
