-- ===== src/Metrics/Recorder/Counters.antt =====
-- The counters and the histograms of a recorder against the calls of its methods.
use mathlib.Core.Path.{subst}
use url_shortner.Prelude.{
  sym, Bool-cases, inl, inr, ℕ, suc, ◌+◌, ◌%◌, ◌≡◌, ◌∙◌, refl, ap, false, Option, none, some, List,
  [], ◌∷◌, ◌++◌, GoMap, arith, if◌then◌else◌,
}
use url_shortner.Prelude.Int.{pos_part}
use url_shortner.Prelude.Maps.{lookup, lookup-insert}
use url_shortner.Text.{Text, codes, text_eq, text_eq_iff, is_empty, text_key}
use url_shortner.Time.{Time, Duration, uint64_mod}
use url_shortner.Metrics.{Histogram, latency_buckets, observe}
use url_shortner.Metrics.Buckets.{observed}
use url_shortner.Metrics.Recorder.{
  Recorder, new_recorder, or_zero, or_new, or_unknown, inc_counter, observe_duration, record_result,
  record_redirect, record_cache_get, record_cache_put, record_source_lookup, record_analytics,
}

-- The five methods.
pub data Method : Type 0 where
  redirect cache_get cache_put source_lookup analytics : Method

pub record Call : Type 0 where
  pub method : Method
  pub result : Text
  pub duration : Duration

abbrev pub prefix : Method → Text
prefix redirect = codes "redirect.requests."
prefix cache_get = codes "cache.get."
prefix cache_put = codes "cache.put."
prefix source_lookup = codes "source.lookup."
prefix analytics = codes "analytics.record."

abbrev pub latency : Method → Text
latency redirect = codes "redirect.latency"
latency cache_get = codes "cache.get.latency"
latency cache_put = codes "cache.put.latency"
latency source_lookup = codes "source.lookup.latency"
latency analytics = codes "analytics.record.latency"

abbrev pub total : Method → Text
total method = prefix method ++ codes "total"

abbrev pub record_method : Method → Text → Duration → Option Recorder → Option Recorder
record_method redirect = record_redirect
record_method cache_get = record_cache_get
record_method cache_put = record_cache_put
record_method source_lookup = record_source_lookup
record_method analytics = record_analytics

-- A new recorder after these calls, of which the first is the last one made.
abbrev pub recorded : Time → List Call → Option Recorder
recorded t [] = some (new_recorder t)
recorded t (c ∷ cs) = record_method c.method c.result c.duration (recorded t cs)

record_method-record_result :
    (m : Method) (result : Text) (d : Duration) (r : Option Recorder)
    → record_method m result d r ≡ record_result (total m) (prefix m) (latency m) result d r
unfolding record_redirect record_cache_get record_cache_put record_source_lookup record_analytics
record_method-record_result redirect result d r = refl
record_method-record_result cache_get result d r = refl
record_method-record_result cache_put result d r = refl
record_method-record_result source_lookup result d r = refl
record_method-record_result analytics result d r = refl

-- How many calls of these name the counter.
abbrev pub mentions : Text → List Text → ℕ
mentions name [] = 0
mentions name (n ∷ ns) = let rest = mentions name ns in if text_eq n name then suc rest else rest

-- The names of the counters that the calls increment.
abbrev pub incremented : List Call → List Text
incremented [] = []
incremented (c ∷ cs) = (prefix c.method ++ or_unknown c.result) ∷ total c.method ∷ incremented cs

-- The durations that go to a histogram, the last one first.
abbrev pub durations : Text → List Call → List ℕ
durations name [] = []
durations name (c ∷ cs) =
    let rest = durations name cs in
    if text_eq (latency c.method) name then pos_part c.duration ∷ rest else rest

abbrev counters_of : Option Recorder → GoMap Text ℕ
counters_of none = []
counters_of (some r) = r.counters

abbrev histograms_of : Option Recorder → GoMap Text Histogram
histograms_of none = []
histograms_of (some r) = r.histograms

-- The value of a counter in the map of a recorder.
abbrev pub counter : Text → Option Recorder → ℕ
counter name r = or_zero (lookup name (counters_of r))

abbrev pub histogram : Text → Option Recorder → Option Histogram
histogram name r = lookup name (histograms_of r)

abbrev Live : Option Recorder → Type 0
Live none = ⊥
Live (some r) = Unit

inc_counter-Live : (k : Text) (r : Option Recorder) → Live r → Live (inc_counter k r)
unfolding inc_counter is_empty
inc_counter-Live [] none live = live
inc_counter-Live (c ∷ k) none live = live
inc_counter-Live [] (some r) live = tt
inc_counter-Live (c ∷ k) (some r) live = tt

observe_duration-Live :
    (k : Text) (d : Duration) (r : Option Recorder) → Live r → Live (observe_duration k d r)
unfolding observe_duration is_empty
observe_duration-Live [] d none live = live
observe_duration-Live (c ∷ k) d none live = live
observe_duration-Live [] d (some r) live = tt
observe_duration-Live (c ∷ k) d (some r) live = tt

counter-inc_counter :
    (j k : Text) (r : Option Recorder)
    → is_empty k ≡ false
    → Live r
    → counter j (inc_counter k r)
      ≡ (if text_eq k j then (counter j r + 1) % uint64_mod else counter j r)
unfolding inc_counter
counter-inc_counter j k none there live = elim live [ ]
counter-inc_counter j k (some r) there live =
    let known = lookup-insert k j ((or_zero (lookup k r.counters) + 1) % uint64_mod) r.counters in
    elim (Bool-cases (text_eq k j)) [
      | inl same ↦
          let one = ap (λ (x : Text). lookup x r.counters) ((text_eq_iff k j).0 same) in
          ground (arith, there, known, one)
      | inr other ↦ ground (arith, there, known)
    ]

counter-observe_duration :
    (j k : Text) (d : Duration) (r : Option Recorder)
    → counter j (observe_duration k d r) ≡ counter j r
unfolding observe_duration
counter-observe_duration j k d none = refl
counter-observe_duration j k d (some r) = ground arith

histogram-inc_counter :
    (j k : Text) (r : Option Recorder) → histogram j (inc_counter k r) ≡ histogram j r
unfolding inc_counter
histogram-inc_counter j k none = refl
histogram-inc_counter j k (some r) = ground arith

histogram-observe_duration :
    (j k : Text) (d : Duration) (r : Option Recorder)
    → is_empty k ≡ false
    → Live r
    → histogram j (observe_duration k d r) ≡ (
        if text_eq k j
        then some (observe latency_buckets (pos_part d) (or_new (histogram j r)))
        else histogram j r)
unfolding observe_duration
histogram-observe_duration j k d none there live = elim live [ ]
histogram-observe_duration j k d (some r) there live =
    let known =
      lookup-insert k j (observe latency_buckets (pos_part d) (or_new (lookup k r.histograms)))
        r.histograms in
    elim (Bool-cases (text_eq k j)) [
      | inl same ↦
          let one = ap (λ (x : Text). lookup x r.histograms) ((text_eq_iff k j).0 same) in
          ground (arith, there, known, one)
      | inr other ↦ ground (arith, there, known)
    ]

abbrev one_more : Text → Text → ℕ → ℕ
one_more k j n = if text_eq k j then (n + 1) % uint64_mod else n

prefix_named : (m : Method) (x : Text) → is_empty (prefix m ++ x) ≡ false
unfolding is_empty
prefix_named redirect x = refl
prefix_named cache_get x = refl
prefix_named cache_put x = refl
prefix_named source_lookup x = refl
prefix_named analytics x = refl

latency_named : (m : Method) → is_empty (latency m) ≡ false
unfolding is_empty
latency_named redirect = refl
latency_named cache_get = refl
latency_named cache_put = refl
latency_named source_lookup = refl
latency_named analytics = refl

-- What a call does to a counter, and to a histogram.
module _ (m : Method) (result : Text) (d : Duration) (r : Option Recorder) (live : Live r) where
  record_method-Live : Live (record_method m result d r)
  unfolding record_result
  record_method-Live = subst Live (sym (record_method-record_result m result d r)) (
      observe_duration-Live (latency m) d
        (inc_counter (prefix m ++ or_unknown result) (inc_counter (total m) r))
        (inc_counter-Live (prefix m ++ or_unknown result) (inc_counter (total m) r)
          (inc_counter-Live (total m) r live)))

  counter-record_method :
      (j : Text)
      → counter j (record_method m result d r)
        ≡ one_more (prefix m ++ or_unknown result) j (one_more (total m) j (counter j r))
  unfolding record_result
  counter-record_method j =
      let first = inc_counter (total m) r in
      let k = prefix m ++ or_unknown result in
      ap (counter j) (record_method-record_result m result d r)
      ∙ counter-observe_duration j (latency m) d (inc_counter k first)
      ∙ counter-inc_counter j k first (prefix_named m (or_unknown result))
          (inc_counter-Live (total m) r live)
      ∙ ap (one_more k j) (counter-inc_counter j (total m) r (prefix_named m (codes "total")) live)

  histogram-record_method :
      (j : Text)
      → histogram j (record_method m result d r) ≡ (
          if text_eq (latency m) j
          then some (observe latency_buckets (pos_part d) (or_new (histogram j r)))
          else histogram j r)
  unfolding record_result
  histogram-record_method j =
      let first = inc_counter (total m) r in
      let k = prefix m ++ or_unknown result in
      let kept : histogram j (inc_counter k first) ≡ histogram j r =
        histogram-inc_counter j k first ∙ histogram-inc_counter j (total m) r in
      ap (histogram j) (record_method-record_result m result d r)
      ∙ histogram-observe_duration j (latency m) d (inc_counter k first) (latency_named m)
          (inc_counter-Live k first (inc_counter-Live (total m) r live))
      ∙ ap
          (λ (h : Option Histogram).
            if text_eq (latency m) j
            then some (observe latency_buckets (pos_part d) (or_new h))
            else h)
          kept

recorded-Live : (t : Time) (cs : List Call) → Live (recorded t cs)
recorded-Live t [] = tt
recorded-Live t (c ∷ cs) =
    record_method-Live c.method c.result c.duration (recorded t cs) (recorded-Live t cs)

-- A counter is the number of times that the calls name it, as a uint64.
pub recorded-counter :
    (t : Time) (calls : List Call) (name : Text)
    → counter name (recorded t calls) ≡ mentions name (incremented calls) % uint64_mod
unfolding lookup
recorded-counter t [] name = refl
recorded-counter t (c ∷ cs) name =
    counter-record_method c.method c.result c.duration (recorded t cs) (recorded-Live t cs) name
    ∙ ap
        (λ (n : ℕ).
          one_more (prefix c.method ++ or_unknown c.result) name (one_more (total c.method) name n))
        (recorded-counter t cs name)
    ∙ ground arith

-- No histogram for no durations, and else the one that has observed them.
abbrev pub of_durations : List ℕ → Option Histogram
of_durations [] = none
of_durations (d ∷ ds) = some (observed latency_buckets (d ∷ ds))

or_new-of_durations : (ds : List ℕ) → or_new (of_durations ds) ≡ observed latency_buckets ds
unfolding observed
or_new-of_durations [] = refl
or_new-of_durations (d ∷ ds) = refl

-- A histogram of the recorder is the one that has observed the durations of the calls to it, a
-- negative one as 0; before the first such call it is not there.
pub recorded-histogram :
    (t : Time) (calls : List Call) (name : Text)
    → histogram name (recorded t calls) ≡ of_durations (durations name calls)
unfolding lookup observed
recorded-histogram t [] name = refl
recorded-histogram t (c ∷ cs) name =
    histogram-record_method c.method c.result c.duration (recorded t cs) (recorded-Live t cs) name
    ∙ ap
        (λ (h : Option Histogram).
          if text_eq (latency c.method) name
          then some (observe latency_buckets (pos_part c.duration) (or_new h))
          else h)
        (recorded-histogram t cs name)
    ∙ elim (Bool-cases (text_eq (latency c.method) name)) [
      | inl same ↦ rw same (
          ap some (
            ap (observe latency_buckets (pos_part c.duration))
              (or_new-of_durations (durations name cs))))
      | inr other ↦ rw other refl
    ]
