-- ===== src/Metrics.antt =====
-- internal/metrics/recorder.go: the latency histogram. Durations are in nanoseconds and not
-- negative, since ObserveDuration makes a negative one 0 before it observes it.
pub mod Buckets
pub mod Tally
pub mod Percentile
pub mod Recorder
use url_shortner.Prelude.{
  ℕ, zero, suc, ◌+◌, ◌-◌, ◌*◌, ◌/◌, ◌%◌, ◌^◌, Bool, ◌||◌, Option, none, some, List, [], ◌∷◌, length,
  get_elem?, replicate, ltb, leb, ◌==◌, if◌then◌else◌,
}
use url_shortner.Time.{uint64_mod}
use mathlib.Core.Option

abbrev pub millisecond : ℕ
millisecond = 1_000_000

abbrev pub latency_buckets : List ℕ
latency_buckets =
    millisecond
    ∷ (5 * millisecond)
    ∷ (10 * millisecond)
    ∷ (25 * millisecond)
    ∷ (50 * millisecond)
    ∷ (100 * millisecond)
    ∷ (250 * millisecond)
    ∷ (500 * millisecond)
    ∷ (1000 * millisecond)
    ∷ []

pub record Histogram : Type 0 where
  pub count : ℕ
  pub total : ℕ
  pub min : ℕ
  pub max : ℕ
  pub buckets : List ℕ

-- newHistogram, for these bounds
unfoldable pub new_histogram : List ℕ → Histogram
new_histogram bounds = record {
  count = 0;
  total = 0;
  min = 0;
  max = 0;
  buckets = replicate (length bounds + 1) 0;
}

-- The first bound that a duration does not pass.
unfoldable pub bucket_index : List ℕ → ℕ → Option ℕ
bucket_index [] d = none
bucket_index (b ∷ bs) d = if leb d b then some 0 else Option.map suc (bucket_index bs d)

-- `buckets[index]++` on a uint64
unfoldable pub increment_at : ℕ → List ℕ → List ℕ
increment_at i [] = []
increment_at zero (c ∷ cs) = ((c + 1) % uint64_mod) ∷ cs
increment_at (suc i) (c ∷ cs) = c ∷ increment_at i cs

-- The increment of the bucket that was found, or of the last one.
unfoldable pub count_at : Option ℕ → List ℕ → List ℕ
unfolding increment_at
count_at (some i) buckets = increment_at i buckets
count_at none buckets = increment_at (length buckets - 1) buckets

unfoldable pub count_in_bucket : List ℕ → ℕ → List ℕ → List ℕ
unfolding bucket_index count_at
count_in_bucket bounds d buckets = count_at (bucket_index bounds d) buckets

-- observe; the total is the bit pattern of an int64.
unfoldable pub observe : List ℕ → ℕ → Histogram → Histogram
unfolding count_in_bucket
observe bounds d h = record {
  count = (h.count + 1) % uint64_mod;
  total = (h.total + d) % uint64_mod;
  min = if (h.count == 0) || ltb d h.min then d else h.min;
  max = if ltb h.max d then d else h.max;
  buckets = count_in_bucket bounds d h.buckets;
}

-- `(h.count*percentile + 99) / 100`, and at least 1
unfoldable pub threshold : ℕ → ℕ → ℕ
threshold count percentile =
    let t = ((count * percentile + 99) % uint64_mod) / 100 in if t == 0 then 1 else t

-- The bound of the bucket at this index, or the maximum for the last one.
abbrev pub bound_at : List ℕ → ℕ → ℕ → ℕ
bound_at bounds index highest = elim (get_elem? bounds index) [ some b ↦ b | none ↦ highest ]

-- `for index, count := range h.buckets`
unfoldable pub percentile_scan : List ℕ → ℕ → ℕ → ℕ → ℕ → List ℕ → ℕ
percentile_scan bounds highest wanted index seen [] = highest
percentile_scan bounds highest wanted index seen (c ∷ cs) =
    let now_seen = (seen + c) % uint64_mod in
    let rest = percentile_scan bounds highest wanted (suc index) now_seen cs in
    if ltb now_seen wanted then rest else bound_at bounds index highest

unfoldable pub percentile_upper_bound : List ℕ → ℕ → Histogram → ℕ
unfolding percentile_scan threshold
percentile_upper_bound bounds percentile h =
    percentile_scan bounds h.max (threshold h.count percentile) 0 0 h.buckets

-- The counts of bucketSnapshot: cumulative up to the last bound, then the last bucket alone.
unfoldable pub cumulative : ℕ → List ℕ → List ℕ → List ℕ
cumulative seen bounds [] = []
cumulative seen [] (c ∷ cs) = c ∷ cumulative seen [] cs
cumulative seen (b ∷ bs) (c ∷ cs) =
    let now_seen = (seen + c) % uint64_mod in now_seen ∷ cumulative now_seen bs cs
