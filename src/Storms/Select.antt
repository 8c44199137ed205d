-- ===== src/Storms/Select.antt =====
-- internal/storms/select.go: which station's rainfall is used when. A time is a number of nanoseconds,
-- a depth a whole number of thousandths of a millimetre, a station id a list of bytes. sort.Slice is
-- an insertion sort, and sort.Search a binary search.
pub mod Search
pub mod Cover
mod Tests
use sumpnet.Prelude.{
  ℕ, zero, suc, ◌+◌, ◌*◌, ◌/◌, length, get_elem?, Bool, true, false, not, ◌&&◌, ◌||◌, List, [], ◌∷◌,
  ◌++◌, Option, none, some, ltb, leb, ◌==◌, if◌then◌else◌, min, max, map,
}
use sumpnet.Prelude.Words.{word_eq}
use sumpnet.Hydrology.Storm.{RainInterval, end_of, is_wet}

pub data Source : Type 0 where
  gauge eccc : Source

abbrev pub is_gauge : Source → Bool
is_gauge gauge = true
is_gauge eccc = false

-- ListRainfallRow
pub record RainfallRow : Type 0 where
  pub source : Source
  pub station_id : List ℕ
  pub ts : ℕ
  pub interval_s : ℕ
  pub mm : ℕ

-- The rows of a station, under its key.
pub record Series : Type 0 where
  pub source : Source
  pub station : List ℕ
  pub intervals : List RainInterval

pub record RainSet : Type 0 where
  pub stations : List (List RainInterval)
  pub gauge : List Bool

pub record Span : Type 0 where
  pub from : ℕ
  pub to : ℕ

abbrev pub interval_of : RainfallRow → RainInterval
interval_of r = record { start = r.ts; dur = r.interval_s * 1000000000; mm = r.mm }

unfoldable pub same_source : Source → Source → Bool
same_source gauge gauge = true
same_source gauge eccc = false
same_source eccc gauge = false
same_source eccc eccc = true

-- byKey[k] = append(byKey[k], ...), a new key at the end.
unfoldable pub add_row : RainfallRow → List Series → List Series
add_row r [] =
    record { source = r.source; station = r.station_id; intervals = interval_of r ∷ [] } ∷ []
add_row r (s ∷ series) =
    let rest = add_row r series in
    if same_source s.source r.source && word_eq s.station r.station_id
    then record s { intervals = s.intervals ++ interval_of r ∷ [] } ∷ series
    else s ∷ rest

unfoldable pub add_rows : List RainfallRow → List Series → List Series
add_rows [] series = series
add_rows (r ∷ rows) series = add_rows rows (add_row r series)

-- s < t on Go strings.
unfoldable pub word_lt : List ℕ → List ℕ → Bool
word_lt [] [] = false
word_lt [] (d ∷ ds) = true
word_lt (c ∷ cs) [] = false
word_lt (c ∷ cs) (d ∷ ds) = let rest = word_lt cs ds in ltb c d || (c == d && rest)

-- Gauges first, then by station.
unfoldable pub key_lt : Series → Series → Bool
key_lt a b =
    if same_source a.source b.source then word_lt a.station b.station else is_gauge a.source

unfoldable pub place_series : Series → List Series → List Series
place_series s [] = s ∷ []
place_series s (x ∷ series) =
    let rest = place_series s series in if key_lt x s then x ∷ rest else s ∷ x ∷ series

unfoldable pub sort_series : List Series → List Series
sort_series [] = []
sort_series (s ∷ series) = place_series s (sort_series series)

-- By Start.
unfoldable pub place : RainInterval → List RainInterval → List RainInterval
place r [] = r ∷ []
place r (x ∷ iv) = let rest = place r iv in if ltb x.start r.start then x ∷ rest else r ∷ x ∷ iv

unfoldable pub sort : List RainInterval → List RainInterval
sort [] = []
sort (r ∷ iv) = place r (sort iv)

-- The loop of unionSpans from a last span on.
unfoldable pub extend : Span → List RainInterval → List Span
extend s [] = s ∷ []
extend s (r ∷ iv) =
    if r.dur == 0
    then extend s iv
    else (if leb r.start s.to
        then extend (record s { to = max s.to (end_of r) }) iv
        else s ∷ extend (record { from = r.start; to = end_of r }) iv)

-- ... and up to the first one.
unfoldable pub spans_of : List RainInterval → List Span
spans_of [] = []
spans_of (r ∷ iv) =
    if r.dur == 0 then spans_of iv else extend (record { from = r.start; to = end_of r }) iv

unfoldable pub union_spans : List RainInterval → List Span
union_spans iv = spans_of (sort iv)

abbrev pub ends_after : ℕ → Option Span → Bool
ends_after t none = true
ends_after t (some s) = ltb t s.to

-- A turn of the loop of sort.Search over the indices from i to j, of which the first k with spans[k].to
-- after t is wanted; nothing is left to do where i is j.
unfoldable pub halve : ℕ → List Span → ℕ → ℕ → ℕ × ℕ
halve t spans i j =
    let h = (i + j) / 2 in
    if ltb i j then (if ends_after t (get_elem? spans h) then (i, h) else (suc h, j)) else (i, j)

-- The turns; j - i of them are enough.
unfoldable pub bisect : ℕ → ℕ → List Span → ℕ → ℕ → ℕ
bisect zero t spans i j = i
bisect (suc fuel) t spans i j = let (i1, j1) = halve t spans i j in bisect fuel t spans i1 j1

-- spans[j] for the j that sort.Search returns, if j is in range.
unfoldable pub search : ℕ → List Span → Option Span
search t spans = get_elem? spans (bisect (length spans) t spans 0 (length spans))

abbrev pub starts_before : Option Span → ℕ → Bool
starts_before none t = false
starts_before (some s) t = ltb s.from t

-- uncovered
unfoldable pub uncovered : List Span → List RainInterval → List RainInterval
uncovered spans [] = []
uncovered spans (r ∷ iv) =
    let rest = uncovered spans iv in
    if starts_before (search r.start spans) (end_of r) then rest else r ∷ rest

-- The intervals of all gauges.
unfoldable pub cover_of : List Series → List RainInterval
cover_of [] = []
cover_of (s ∷ series) =
    let rest = cover_of series in if is_gauge s.source then s.intervals ++ rest else rest

unfoldable pub used : List Span → Series → List RainInterval
used spans s = let iv = sort s.intervals in if is_gauge s.source then iv else uncovered spans iv

abbrev pub add_station : List RainInterval → Bool → RainSet → RainSet
add_station [] is_own set = set
add_station (r ∷ iv) is_own set = record {
  stations = (r ∷ iv) ∷ set.stations;
  gauge = is_own ∷ set.gauge;
}

-- The last loop of selectRain.
unfoldable pub set_of : List Span → List Series → RainSet
set_of spans [] = record { stations = []; gauge = [] }
set_of spans (s ∷ series) = add_station (used spans s) (is_gauge s.source) (set_of spans series)

-- selectRain
unfoldable pub select_rain : List RainfallRow → RainSet
select_rain rows =
    let series = sort_series (add_rows rows []) in set_of (union_spans (cover_of series)) series

-- flatten
unfoldable pub flatten : List (List RainInterval) → List RainInterval
flatten [] = []
flatten (iv ∷ stations) = iv ++ flatten stations

abbrev pub widened : RainInterval → Option (ℕ × ℕ) → Option (ℕ × ℕ)
widened r none = some (r.start, end_of r)
widened r (some (first, last)) = some (min r.start first, max (end_of r) last)

-- wetExtent
unfoldable pub wet_extent : List RainInterval → Option (ℕ × ℕ)
wet_extent [] = none
wet_extent (r ∷ iv) = let rest = wet_extent iv in if is_wet r then widened r rest else rest

-- Did a wet interval of the series overlap the storm's span?
unfoldable pub saw_rain : Span → List RainInterval → Bool
saw_rain storm [] = false
saw_rain storm (r ∷ iv) =
    let rest = saw_rain storm iv in
    (is_wet r && (ltb storm.from (end_of r) && ltb r.start storm.to)) || rest

-- sourceFor
unfoldable pub source_for : Span → List (List RainInterval) → List Bool → Source
source_for storm [] own = eccc
source_for storm (iv ∷ stations) [] = eccc
source_for storm (iv ∷ stations) (is_own ∷ own) =
    let rest = source_for storm stations own in if is_own && saw_rain storm iv then gauge else rest
