-- ===== src/Hydrology/Storm.antt =====
-- internal/hydrology/storm.go: rain intervals and SegmentStorms. A time is a number of nanoseconds, a
-- depth a whole number of thousandths of a millimetre, so that sums are exact and the source's
-- tolerances, which absorb the rounding of floats, have nothing to absorb. An intensity is a depth
-- over a duration.
pub mod Apart
mod Tests
use sumpnet.Prelude.{
  ℕ, ◌+◌, ◌*◌, Bool, true, false, not, ◌&&◌, List, [], ◌∷◌, ◌++◌, ltb, leb, ◌==◌, if◌then◌else◌,
  max,
}

pub record RainInterval : Type 0 where
  pub start : ℕ
  pub dur : ℕ
  pub mm : ℕ

-- RainInterval.End
abbrev pub end_of : RainInterval → ℕ
end_of r = r.start + r.dur

-- RainInterval.Wet
abbrev pub is_wet : RainInterval → Bool
is_wet r = ltb 0 r.mm

-- StormMinTotalMM
abbrev pub storm_min_total : ℕ
storm_min_total = 5000

-- StormMaxGap
abbrev pub storm_max_gap : ℕ
storm_max_gap = 21600000000000

-- mm over dur
pub record Intensity : Type 0 where
  pub mm : ℕ
  pub dur : ℕ

abbrev pub no_intensity : Intensity
no_intensity = record { mm = 0; dur = 1 }

-- RainInterval.IntensityMMH
unfoldable pub intensity : RainInterval → Intensity
intensity r = if r.dur == 0 then no_intensity else record { mm = r.mm; dur = r.dur }

-- Is it OnsetMinIntensity, a millimetre an hour, at least?
unfoldable pub is_onset : Intensity → Bool
is_onset i = leb (1000 * i.dur) (i.mm * 3600000000000)

-- math.Max of two intensities.
unfoldable pub stronger : Intensity → Intensity → Intensity
stronger a b = if ltb (a.mm * b.dur) (b.mm * a.dur) then b else a

pub record Storm : Type 0 where
  pub first_rain : ℕ
  pub onset : ℕ
  pub rain_end : ℕ
  pub total_mm : ℕ
  pub peak : Intensity
  pub is_closed : Bool

-- cur with onsetFound
pub record Current : Type 0 where
  pub first_rain : ℕ
  pub onset : ℕ
  pub rain_end : ℕ
  pub total_mm : ℕ
  pub peak : Intensity
  pub onset_found : Bool

abbrev pub begun : RainInterval → Current
begun r = record {
  first_rain = r.start;
  onset = r.start;
  rain_end = 0;
  total_mm = 0;
  peak = no_intensity;
  onset_found = false;
}

-- What a wet interval adds to the storm.
unfoldable pub rained : RainInterval → Current → Current
rained r c =
    let is_first = not c.onset_found && is_onset (intensity r) in
    record {
      first_rain = c.first_rain;
      onset = if is_first then r.start else c.onset;
      rain_end = max c.rain_end (end_of r);
      total_mm = c.total_mm + r.mm;
      peak = stronger c.peak (intensity r);
      onset_found = if is_first then true else c.onset_found;
    }

-- flush: a storm below the least total is not reported.
unfoldable pub flush : Bool → Current → List Storm → List Storm
flush is_closed c storms =
    if leb storm_min_total c.total_mm
    then record {
      first_rain = c.first_rain;
      onset = c.onset;
      rain_end = c.rain_end;
      total_mm = c.total_mm;
      peak = c.peak;
      is_closed = is_closed;
    }
      ∷ storms
    else storms

-- The loop of SegmentStorms from a storm on.
unfoldable pub segment_from : ℕ → Current → List RainInterval → List Storm
segment_from horizon c [] = flush (leb (c.rain_end + storm_max_gap) horizon) c []
segment_from horizon c (r ∷ rain) =
    if not (is_wet r)
    then segment_from horizon c rain
    else (if leb (c.rain_end + storm_max_gap) r.start
        then flush true c (segment_from horizon (rained r (begun r)) rain)
        else segment_from horizon (rained r c) rain)

-- SegmentStorms
unfoldable pub segment_storms : ℕ → List RainInterval → List Storm
segment_storms horizon [] = []
segment_storms horizon (r ∷ rain) =
    if is_wet r then segment_from horizon (rained r (begun r)) rain else segment_storms horizon rain
