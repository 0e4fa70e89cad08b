-- ===== src/Metrics/Percentile.antt =====
-- What a reported percentile means: enough of the observed durations lie at or below it.
use url_shortner.Prelude.{
  le_or_lt, ℕ, suc, ◌+◌, ◌*◌, ◌≤◌, ◌<◌, ◌≡◌, ◌∙◌, ap, refl, List, [], ◌∷◌, length, All, get_elem?,
  leb, arith, Bool-cases, inl, inr,
}
use url_shortner.Time.{uint64_mod}
use url_shortner.Metrics.{Histogram, threshold, bound_at, percentile_scan, percentile_upper_bound}
use url_shortner.Metrics.Buckets.{observed, Within, observed_range}
use url_shortner.Metrics.Tally.{count_le, above, tally, length-above, observed-buckets}

-- Every bound is at most the bounds after it.
abbrev pub Ascends : List ℕ → Type 0
Ascends [] = Unit
Ascends (b ∷ bs) = All (λ c. b ≤ c) bs × Ascends bs

count_le-above :
    (b c : ℕ) (ds : List ℕ) → b ≤ c → count_le b ds + count_le c (above b ds) ≡ count_le c ds
count_le-above b c [] le = refl
count_le-above b c (d ∷ ds) le = ground (arith, count_le-above b c ds)

count_le_total : (c : ℕ) (ds : List ℕ) → All (λ d. d ≤ c) ds → count_le c ds ≡ length ds
count_le_total c [] h = refl
count_le_total c (d ∷ ds) h = ground (arith, count_le_total c ds)

All-above_lt : (b : ℕ) (ds : List ℕ) → All (λ d. b < d) (above b ds)
All-above_lt b [] = tt
All-above_lt b (d ∷ ds) = ground (arith, All-above_lt b ds)

All-above : (P : ℕ → Type 0) (b : ℕ) (ds : List ℕ) → All P ds → All P (above b ds)
All-above P b [] h = tt
All-above P b (d ∷ ds) h = elim (Bool-cases (leb d b)) [
  | inl low ↦ rw low (All-above P b ds h.1)
  | inr high ↦ rw high (h.0, All-above P b ds h.1)
]

module _ (bounds : List ℕ) (highest wanted : ℕ) where
  stop :
      (index seen c : ℕ) (cs : List ℕ)
      → seen + c < uint64_mod
      → wanted ≤ seen + c
      → percentile_scan bounds highest wanted index seen (c ∷ cs) ≡ bound_at bounds index highest
  unfolding percentile_scan
  stop index seen c cs room enough = ground arith

  go :
      (index seen c : ℕ) (cs : List ℕ)
      → seen + c < uint64_mod
      → seen + c < wanted
      → percentile_scan bounds highest wanted index seen (c ∷ cs)
        ≡ percentile_scan bounds highest wanted (suc index) (seen + c) cs
  unfolding percentile_scan
  go index seen c cs room few = ground arith

  -- The bounds from an index on.
  abbrev From : ℕ → List ℕ → Type 0
  From index bs = (i : ℕ) → get_elem? bounds (index + i) ≡ get_elem? bs i

  From-tail : (index b : ℕ) (bs : List ℕ) → From index (b ∷ bs) → From (suc index) bs
  From-tail index b bs at i =
      let next : suc index + i ≡ index + suc i = omega arith in
      ap (get_elem? bounds) next ∙ at (suc i)

  bound_at-cons :
      (index b : ℕ) (bs : List ℕ) → From index (b ∷ bs) → bound_at bounds index highest ≡ b
  bound_at-cons index b bs at =
      let here : index ≡ index + 0 = omega arith in
      let found = ap (get_elem? bounds) here ∙ at 0 in rw (found, bound_at) refl

  bound_at-nil : (index : ℕ) → From index [] → bound_at bounds index highest ≡ highest
  bound_at-nil index at =
      let here : index ≡ index + 0 = omega arith in
      let found = ap (get_elem? bounds) here ∙ at 0 in rw (found, bound_at) refl

  -- The scan over the tally of the durations that are left.
  abbrev left : ℕ → ℕ → List ℕ → List ℕ → ℕ
  left index seen bs ds = percentile_scan bounds highest wanted index seen (tally bs ds)

  left-nil :
      (index seen : ℕ) (ds : List ℕ)
      → From index []
      → seen + length ds < uint64_mod
      → wanted ≤ seen + length ds
      → left index seen [] ds ≡ highest
  left-nil index seen ds at room enough =
      stop index seen (length ds) [] room enough ∙ bound_at-nil index at

  left_low :
      (low index seen : ℕ) (bs ds : List ℕ)
      → From index bs
      → seen + length ds < uint64_mod
      → seen < wanted
      → wanted ≤ seen + length ds
      → All (λ d. low < d) ds
      → All (λ d. d ≤ highest) ds
      → All (λ b. low ≤ b) bs
      → low ≤ left index seen bs ds
  left_low low index seen [] [] at room few enough over under bigger = absurd (omega arith)
  left_low low index seen [] (d ∷ ds) at room few enough over under bigger =
      rw (left-nil index seen (d ∷ ds) at room enough) (omega arith)
  left_low low index seen (b ∷ bs) ds at room few enough over under bigger =
      let room' : seen + count_le b ds < uint64_mod = omega (arith, length-above b ds) in
      elim (le_or_lt wanted (seen + count_le b ds)) [
        | inl stops ↦
            rw
              (
                stop index seen (count_le b ds) (tally bs (above b ds)) room' stops,
                bound_at-cons index b bs at,
              )
              bigger.0
        | inr goes ↦ rw (go index seen (count_le b ds) (tally bs (above b ds)) room' goes) (
            left_low low (suc index) (seen + count_le b ds) bs (above b ds)
              (From-tail index b bs at) (omega (arith, length-above b ds)) goes
              (omega (arith, length-above b ds)) (All-above (λ d. low < d) b ds over)
              (All-above (λ d. d ≤ highest) b ds under) bigger.1)
      ]

  left_covers :
      (index seen : ℕ) (bs ds : List ℕ)
      → From index bs
      → Ascends bs
      → seen + length ds < uint64_mod
      → seen < wanted
      → wanted ≤ seen + length ds
      → All (λ d. d ≤ highest) ds
      → wanted ≤ seen + count_le (left index seen bs ds) ds
  left_covers index seen [] ds at up room few enough under =
      rw (left-nil index seen ds at room enough) (omega (arith, count_le_total highest ds under))
  left_covers index seen (b ∷ bs) ds at up room few enough under =
      let room' : seen + count_le b ds < uint64_mod = omega (arith, length-above b ds) in
      elim (le_or_lt wanted (seen + count_le b ds)) [
        | inl stops ↦
            rw
              (
                stop index seen (count_le b ds) (tally bs (above b ds)) room' stops,
                bound_at-cons index b bs at,
              )
              stops
        | inr goes ↦
            let rest = above b ds in
            let room'' : seen + count_le b ds + length rest < uint64_mod =
              omega (arith, length-above b ds) in
            let enough' : wanted ≤ seen + count_le b ds + length rest =
              omega (arith, length-above b ds) in
            let at' = From-tail index b bs at in
            let under' = All-above (λ d. d ≤ highest) b ds under in
            let reached = left (suc index) (seen + count_le b ds) bs rest in
            let low : b ≤ reached =
              left_low b (suc index) (seen + count_le b ds) bs rest at' room'' goes enough'
                (All-above_lt b ds) under' up.0 in
            let ih =
              left_covers (suc index) (seen + count_le b ds) bs rest at' up.1 room'' goes enough'
                under' in
            rw (go index seen (count_le b ds) (tally bs rest) room' goes)
              (omega (arith, ih, count_le-above b reached ds low))
      ]

threshold_lem :
    (n p : ℕ)
    → 0 < n
    → 0 < p
    → p ≤ 100
    → n * p + 99 < uint64_mod
    → (0 < threshold n p) × (threshold n p ≤ n) × (n * p ≤ 100 * threshold n p)
unfolding threshold
threshold_lem n p some_seen p_there p_small room =
    let bound : n * p ≤ n * 100 = grind arith in (ground arith, ground arith, ground arith)

Within-under : (h : Histogram) (ds : List ℕ) → Within h ds → All (λ d. d ≤ h.max) ds
Within-under h [] w = tt
Within-under h (d ∷ ds) w = (w.0.1, Within-under h ds w.1)

-- Of the durations that a histogram has seen, at least the wanted percentage lies at or below the
-- percentile that it reports, for ascending bounds, as long as the counters do not wrap.
pub percentile_covers :
    (bounds : List ℕ) (p : ℕ) (ds : List ℕ)
    → Ascends bounds
    → 0 < p
    → p ≤ 100
    → 0 < length ds
    → length ds * p + 99 < uint64_mod
    → length ds < uint64_mod
    → (let h = observed bounds ds in
        length ds * p ≤ 100 * count_le (percentile_upper_bound bounds p h) ds)
unfolding percentile_upper_bound
percentile_covers bounds p ds up p_there p_small seen room room' =
    let h = observed bounds ds in
    let (count, within) = observed_range bounds ds room' in
    let buckets = observed-buckets bounds ds room' in
    let wanted = threshold (length ds) p in
    let (positive, small, enough) = threshold_lem (length ds) p seen p_there p_small room in
    let reported : ℕ = percentile_scan bounds h.max wanted 0 0 (tally bounds ds) in
    let same : percentile_upper_bound bounds p h ≡ reported =
      λ i. percentile_scan bounds h.max (threshold (count i) p) 0 0 (buckets i) in
    let covers =
      left_covers bounds h.max wanted 0 0 bounds ds (λ i. ap (get_elem? bounds) (omega arith)) up
        (omega arith) positive (omega arith) (Within-under h ds within) in
    rw same (omega arith)
