-- ===== src/Ingest/Convert/Fits.antt =====
-- What a row that ingest accepts looks like.
use sumpnet.Prelude.{
  ℕ, ◌+◌, refl, ◌≡◌, ◌≤◌, ◌<◌, true, not, List, Option, none, some, arith, if-cases, inl, inr,
  Option-cases, subst,
}
use sumpnet.Prelude.Int.{ℤ, pos, negsuc}
use sumpnet.Prelude.Result.{Result, ok, bind-ok}
use sumpnet.Ingest.Convert.{
  UplinkMeta, Origin, Limits, is_dev_eui, to_lower, is_future, i32, i16, Reading, ReadingRow,
  RainGaugeReading, RainGaugeRow, is_depth, meta_of, event_time, reading_row, rain_gauge_row,
}

-- The device id is sixteen lower-case hexadecimal digits, and the time is not later than the limit.
pub record SoundOrigin (l : Limits) (device : List ℕ) (ts : ℕ) : Type 0 where
  pub device_id : is_dev_eui device ≡ true
  pub time : ts ≤ l.now + l.max_future

pub record ReadingFits (l : Limits) (r : ReadingRow) : Type 0 where
  pub origin : SoundOrigin l r.device_id r.ts
  pub level_mm : r.level_mm < 2147483648
  pub rh_pct : r.rh_pct < 32768
  pub batt_mv : r.batt_mv < 2147483648
  pub cycles_since_last : r.cycles_since_last < 32768

-- A depth in millionths of a millimetre that is more than nothing and at most 999.999 mm.
pub record IsDepth (mm_per_tip : Option ℤ) : Type 0 where
  pub depth : ℕ
  pub known : mm_per_tip ≡ some (pos depth)
  pub positive : 0 < depth
  pub bounded : depth ≤ 999_999_000

pub record RainGaugeFits (l : Limits) (r : RainGaugeRow) : Type 0 where
  pub origin : SoundOrigin l r.device_id r.ts
  pub mm_per_tip : IsDepth r.mm_per_tip
  pub interval_s : r.interval_s < 2147483648
  pub batt_mv : r.batt_mv < 2147483648

is_depth-IsDepth : (mm : Option ℤ) → is_depth mm ≡ true → IsDepth mm
is_depth-IsDepth none e = cc
is_depth-IsDepth (some (pos d)) e = record {
  depth = d;
  known = refl;
  positive = ground arith;
  bounded = ground arith;
}
is_depth-IsDepth (some (negsuc d)) e = absurd (ground arith)

i32_fits : (v : ℕ) → i32 v < 2147483648
unfolding i32
i32_fits v = omega arith

i16_fits : (v : ℕ) → i16 v < 32768
unfolding i16
i16_fits v = omega arith

result_of : {E A : Type 0} {x y : A} → ◌≡◌ {A = Result E A} (ok x) (ok y) → x ≡ y
result_of e = cc

module _ (parse_uuid : List ℕ → Option ℕ) (l : Limits) where
  meta_of-SoundOrigin :
      (m : Option UplinkMeta) (o : Origin)
      → meta_of parse_uuid l m ≡ ok o
      → SoundOrigin l o.device o.received
  unfolding meta_of
  meta_of-SoundOrigin none o e = cc
  meta_of-SoundOrigin (some m) o e =
      elim (if-cases (not (is_dev_eui (to_lower m.dev_eui))) _ _ (ok o) e) [
        | inl (bad, e1) ↦ cc
        | inr (good, e1) ↦ elim (Option-cases m.received_at) [
          | inl h ↦ let e2 = rw h at e1 in cc
          | inr (t, h) ↦ elim (if-cases (is_future l t) _ _ (ok o) (rw h at e1)) [
            | inl (late, e2) ↦ cc
            | inr (early, e2) ↦
                subst (λ (x : Origin). SoundOrigin l x.device x.received) (result_of e2)
                  (record { device_id = ground arith; time = ground arith })
          ]
        ]
      ]

  event_time_le :
      (t : Option ℕ) (received ts : ℕ)
      → received ≤ l.now + l.max_future
      → event_time parse_uuid l t received ≡ ok ts
      → ts ≤ l.now + l.max_future
  unfolding event_time
  event_time_le none received ts le e = ground arith
  event_time_le (some t) received ts le e = ground arith

  -- A reading that ingest accepts becomes a row with a lower-case hexadecimal device id, a time not
  -- later than the limit on future times, and counts that fit the columns' integers.
  pub reading_row-ReadingFits :
      (r : Reading) (row : ReadingRow) → reading_row parse_uuid l r ≡ ok row → ReadingFits l row
  unfolding reading_row
  reading_row-ReadingFits r row e =
      let (o, e1, f1) = bind-ok (meta_of parse_uuid l r.meta) _ row e in
      let (ts, e2, f2) = bind-ok (event_time parse_uuid l r.ts o.received) _ row f1 in
      let sound = meta_of-SoundOrigin r.meta o e1 in
      subst (ReadingFits l) (result_of f2) (record {
        origin = record {
          device_id = sound.device_id;
          time = event_time_le r.ts o.received ts sound.time e2;
        };
        level_mm = i32_fits r.level_mm;
        rh_pct = i16_fits r.rh_pct;
        batt_mv = i32_fits r.batt_mv;
        cycles_since_last = i16_fits r.cycles_since_last;
      })

  -- A rain gauge reading that ingest accepts becomes a row with a lower-case hexadecimal device id, a
  -- time not later than the limit on future times, a depth of a tip that is a double above 0 and at
  -- most 999.999, and counts that fit the columns' integers.
  pub rain_gauge_row-RainGaugeFits :
      (r : RainGaugeReading) (row : RainGaugeRow)
      → rain_gauge_row parse_uuid l r ≡ ok row
      → RainGaugeFits l row
  unfolding rain_gauge_row
  rain_gauge_row-RainGaugeFits r row e =
      let (o, e1, f1) = bind-ok (meta_of parse_uuid l r.meta) _ row e in
      let (ts, e2, f2) = bind-ok (event_time parse_uuid l r.ts o.received) _ row f1 in
      let sound = meta_of-SoundOrigin r.meta o e1 in
      elim (if-cases (not (is_depth r.mm_per_tip)) _ _ (ok row) f2) [
        | inl (bad, e3) ↦ cc
        | inr (good, e3) ↦ subst (RainGaugeFits l) (result_of e3) (record {
          origin = record {
            device_id = sound.device_id;
            time = event_time_le r.ts o.received ts sound.time e2;
          };
          mm_per_tip = is_depth-IsDepth r.mm_per_tip (ground arith);
          interval_s = i32_fits r.interval_s;
          batt_mv = i32_fits r.batt_mv;
        })
      ]
