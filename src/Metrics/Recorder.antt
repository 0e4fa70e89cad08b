-- ===== src/Metrics/Recorder.antt =====
-- internal/metrics/recorder.go: the recorder, which is nil for `none`, its snapshot, and the handler
-- that shows it. A snapshot's milliseconds are the microseconds that the code divides as a float,
-- and its uptime, a float too, is left out; the lock is held for each whole method.
pub mod Counters
use url_shortner.Prelude.{
  ℕ, suc, ◌+◌, ◌-◌, ◌*◌, ◌/◌, ◌%◌, ◌^◌, Bool, Option, none, some, List, [], ◌∷◌, ◌++◌, GoMap, map,
  ◌==◌, if◌then◌else◌,
}
use url_shortner.Prelude.Int.{ℤ, pos, negsuc, pos_part, sub_ℕ}
use url_shortner.Prelude.Maps.{lookup, insert}
use url_shortner.Text.{Text, codes, is_empty, text_key}
use url_shortner.Time.{Time, Duration, uint64_mod, wrap_int64}
use url_shortner.Access.{TokenHeaders, authorized}
use url_shortner.Metrics.{
  Histogram, latency_buckets, new_histogram, observe, percentile_upper_bound, cumulative,
}

pub record Recorder : Type 0 where
  pub started_at : Time
  pub counters : GoMap Text ℕ
  pub histograms : GoMap Text Histogram

-- NewRecorder, at this time
abbrev pub new_recorder : Time → Recorder
new_recorder started_at = record { started_at = started_at; counters = []; histograms = [] }

-- What Go reads of a map of numbers.
abbrev pub or_zero : Option ℕ → ℕ
or_zero none = 0
or_zero (some n) = n

abbrev pub or_new : Option Histogram → Histogram
or_new none = new_histogram latency_buckets
or_new (some h) = h

unfoldable pub inc_counter : Text → Option Recorder → Option Recorder
inc_counter name none = none
inc_counter name (some r) =
    if is_empty name
    then some r
    else (let value = (or_zero (lookup name r.counters) + 1) % uint64_mod in
        some (record r { counters = insert name value r.counters }))

-- A negative duration is made 0.
unfoldable pub observe_duration : Text → Duration → Option Recorder → Option Recorder
observe_duration name duration none = none
observe_duration name duration (some r) =
    if is_empty name
    then some r
    else (let h = observe latency_buckets (pos_part duration) (or_new (lookup name r.histograms)) in
        some (record r { histograms = insert name h r.histograms }))

-- `if result == "" { result = "unknown" }`
unfoldable pub or_unknown : Text → Text
or_unknown result = if is_empty result then codes "unknown" else result

-- The common body of the five methods below, on the names of their two counters and histogram.
unfoldable pub record_result :
    Text → Text → Text → Text → Duration → Option Recorder → Option Recorder
unfolding inc_counter observe_duration or_unknown
record_result total prefix latency result duration r =
    observe_duration latency duration
      (inc_counter (prefix ++ or_unknown result) (inc_counter total r))

unfoldable pub record_redirect : Text → Duration → Option Recorder → Option Recorder
unfolding record_result
record_redirect =
    record_result (codes "redirect.requests.total") (codes "redirect.requests.")
      (codes "redirect.latency")

unfoldable pub record_cache_get : Text → Duration → Option Recorder → Option Recorder
unfolding record_result
record_cache_get =
    record_result (codes "cache.get.total") (codes "cache.get.") (codes "cache.get.latency")

unfoldable pub record_cache_put : Text → Duration → Option Recorder → Option Recorder
unfolding record_result
record_cache_put =
    record_result (codes "cache.put.total") (codes "cache.put.") (codes "cache.put.latency")

unfoldable pub record_source_lookup : Text → Duration → Option Recorder → Option Recorder
unfolding record_result
record_source_lookup =
    record_result (codes "source.lookup.total") (codes "source.lookup.")
      (codes "source.lookup.latency")

unfoldable pub record_analytics : Text → Duration → Option Recorder → Option Recorder
unfolding record_result
record_analytics =
    record_result (codes "analytics.record.total") (codes "analytics.record.")
      (codes "analytics.record.latency")

-- The quotient of two int64, rounded towards 0; by 0 the code does not divide.
unfoldable pub quotient : ℤ → ℤ → ℤ
quotient (pos a) (pos b) = pos (a / b)
quotient (pos a) (negsuc b) = sub_ℕ 0 (a / suc b)
quotient (negsuc a) (pos b) = sub_ℕ 0 (suc a / b)
quotient (negsuc a) (negsuc b) = pos (suc a / suc b)

-- d.Microseconds()
abbrev pub microseconds : ℤ → ℤ
microseconds d = quotient d (pos 1000)

-- `h.total / time.Duration(h.count)`
unfoldable pub average : Histogram → ℤ
unfolding quotient
average h = wrap_int64 (quotient (wrap_int64 (pos h.total)) (wrap_int64 (pos h.count)))

-- "le_" and "gt_" before the texts of the bounds
abbrev pub bucket_names : List Text
bucket_names =
    codes "le_1ms"
    ∷ codes "le_5ms"
    ∷ codes "le_10ms"
    ∷ codes "le_25ms"
    ∷ codes "le_50ms"
    ∷ codes "le_100ms"
    ∷ codes "le_250ms"
    ∷ codes "le_500ms"
    ∷ codes "le_1s"
    ∷ codes "gt_1s"
    ∷ []

abbrev named : List Text → List ℕ → GoMap Text ℕ
named [] values = []
named (name ∷ names) [] = []
named (name ∷ names) (v ∷ values) = (name, v) ∷ named names values

unfoldable pub bucket_snapshot : List ℕ → GoMap Text ℕ
bucket_snapshot values = named bucket_names (cumulative 0 latency_buckets values)

-- HistogramSnapshot, in microseconds
pub record HistogramSnapshot : Type 0 where
  pub count : ℕ
  pub min : ℤ
  pub max : ℤ
  pub avg : ℤ
  pub p50 : ℤ
  pub p95 : ℤ
  pub p99 : ℤ
  pub buckets : GoMap Text ℕ

unfoldable pub histogram_snapshot : Histogram → HistogramSnapshot
unfolding bucket_snapshot average
histogram_snapshot h =
    let buckets = bucket_snapshot h.buckets in
    let none_yet = pos 0 in
    let percentile = λ (p : ℕ). microseconds (pos (percentile_upper_bound latency_buckets p h)) in
    if h.count == 0
    then record {
      count = 0;
      min = none_yet;
      max = none_yet;
      avg = none_yet;
      p50 = none_yet;
      p95 = none_yet;
      p99 = none_yet;
      buckets = buckets;
    }
    else record {
      count = h.count;
      min = microseconds (pos h.min);
      max = microseconds (pos h.max);
      avg = microseconds (average h);
      p50 = percentile 50;
      p95 = percentile 95;
      p99 = percentile 99;
      buckets = buckets;
    }

pub record Snapshot : Type 0 where
  pub status : Text
  pub started_at : Option Time
  pub counters : GoMap Text ℕ
  pub histograms : GoMap Text HistogramSnapshot

abbrev snapshots : GoMap Text Histogram → GoMap Text HistogramSnapshot
snapshots [] = []
snapshots ((name, h) ∷ rest) = (name, histogram_snapshot h) ∷ snapshots rest

unfoldable pub snapshot : Option Recorder → Snapshot
unfolding histogram_snapshot
snapshot none = record {
  status = codes "disabled";
  started_at = none;
  counters = [];
  histograms = [];
}
snapshot (some r) = record {
  status = codes "ok";
  started_at = some r.started_at;
  counters = r.counters;
  histograms = snapshots r.histograms;
}

pub data Page : Type 0 where
  plain : ℕ → Text → Page
  shown : Snapshot → Page

-- Handler.ServeHTTP
unfoldable pub serve_metrics : (Text → Text) → Option Recorder → Text → TokenHeaders → Page
unfolding snapshot
serve_metrics sha256 recorder token headers =
    if is_empty token
    then plain 404 (codes "not_found")
    else if authorized sha256 headers token
    then shown (snapshot recorder)
    else plain 401 (codes "unauthorized")
