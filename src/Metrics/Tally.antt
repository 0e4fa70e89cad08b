-- ===== src/Metrics/Tally.antt =====
-- The buckets of a histogram against the durations that it has seen: each bucket counts the
-- durations up to its bound that passed the bounds before it.
use url_shortner.Prelude.{
  ℕ, suc, ◌+◌, ◌-◌, ◌%◌, ◌≤◌, ◌<◌, ◌≡◌, ◌∙◌, sym, ap, refl, true, false, List, [], ◌∷◌, length,
  replicate, leb, arith, Bool-cases, inl, inr, if◌then◌else◌, Option, none, some,
}
use url_shortner.Time.{uint64_mod}
use url_shortner.Metrics.{
  new_histogram, bucket_index, increment_at, count_at, count_in_bucket, observe,
}
use url_shortner.Metrics.Buckets.{observed}
use mathlib.Core.Option

-- How many durations are at most this one.
abbrev pub count_le : ℕ → List ℕ → ℕ
count_le b [] = 0
count_le b (d ∷ ds) = let rest = count_le b ds in if leb d b then suc rest else rest

-- The durations above a bound.
abbrev pub above : ℕ → List ℕ → List ℕ
above b [] = []
above b (d ∷ ds) = let rest = above b ds in if leb d b then rest else d ∷ rest

-- The counts of the buckets, and of what passes all bounds.
abbrev pub tally : List ℕ → List ℕ → List ℕ
tally [] ds = length ds ∷ []
tally (b ∷ bs) ds = count_le b ds ∷ tally bs (above b ds)

tally-nil : (bounds : List ℕ) → tally bounds [] ≡ replicate (length bounds + 1) 0
tally-nil [] = refl
tally-nil (b ∷ bs) =
    let more : suc (length bs + 1) ≡ suc (length bs) + 1 = omega arith in
    ap (λ (t : List ℕ). 0 ∷ t) (tally-nil bs) ∙ ap (λ (k : ℕ). replicate k 0) more

count_le-le : (b : ℕ) (ds : List ℕ) → count_le b ds ≤ length ds
count_le-le b [] = omega arith
count_le-le b (d ∷ ds) = ground (arith, count_le-le b ds)

pub length-above : (b : ℕ) (ds : List ℕ) → count_le b ds + length (above b ds) ≡ length ds
length-above b [] = refl
length-above b (d ∷ ds) = ground (arith, length-above b ds)

length-tally : (bounds ds : List ℕ) → length (tally bounds ds) ≡ suc (length bounds)
length-tally [] ds = refl
length-tally (b ∷ bs) ds = ap suc (length-tally bs (above b ds))

count_at-suc :
    (o : Option ℕ) (c : ℕ) (t : List ℕ)
    → 0 < length t
    → count_at (Option.map suc o) (c ∷ t) ≡ c ∷ count_at o t
unfolding count_at
count_at-suc none c t there =
    let last : suc (length t) - 1 ≡ suc (length t - 1) = omega arith in
    ap (λ (k : ℕ). increment_at k (c ∷ t)) last
count_at-suc (some i) c t there = refl

bucket_index_past :
    (b d : ℕ) (bs : List ℕ)
    → leb d b ≡ false
    → bucket_index (b ∷ bs) d ≡ Option.map suc (bucket_index bs d)
unfolding bucket_index
bucket_index_past b d bs past = ground arith

bucket_index_here : (b d : ℕ) (bs : List ℕ) → leb d b ≡ true → bucket_index (b ∷ bs) d ≡ some 0
unfolding bucket_index
bucket_index_here b d bs here = ground arith

-- A duration that passes the first bound is counted in the buckets after it.
count_in_bucket-cons :
    (b d c : ℕ) (bs t : List ℕ)
    → leb d b ≡ false
    → 0 < length t
    → count_in_bucket (b ∷ bs) d (c ∷ t) ≡ c ∷ count_in_bucket bs d t
unfolding count_in_bucket
count_in_bucket-cons b d c bs t past there =
    ap (λ (o : Option ℕ). count_at o (c ∷ t)) (bucket_index_past b d bs past)
    ∙ count_at-suc (bucket_index bs d) c t there

-- One more duration is one more in its bucket.
tally-cons :
    (bounds : List ℕ) (d : ℕ) (ds : List ℕ)
    → length ds + 1 < uint64_mod
    → count_in_bucket bounds d (tally bounds ds) ≡ tally bounds (d ∷ ds)
tally-cons [] d ds room = unfold count_in_bucket in ground arith
tally-cons (b ∷ bs) d ds room = elim (Bool-cases (leb d b)) [
  | inl here ↦
      let low : (count_le b ds + 1) % uint64_mod ≡ suc (count_le b ds) =
        omega (arith, count_le-le b ds) in
      unfold count_in_bucket in
      ap (λ (o : Option ℕ). count_at o (count_le b ds ∷ tally bs (above b ds)))
        (bucket_index_here b d bs here)
      ∙ ap (λ (k : ℕ). k ∷ tally bs (above b ds)) low
      ∙ rw here refl
  | inr past ↦
      count_in_bucket-cons b d (count_le b ds) bs (tally bs (above b ds)) past
        (omega (arith, length-tally bs (above b ds)))
      ∙ rw past (
          ap (λ (t : List ℕ). count_le b ds ∷ t)
            (tally-cons bs d (above b ds) (omega (arith, length-above b ds))))
]

-- The buckets of a histogram are the tally of the durations that it has seen, while the counters do
-- not wrap.
pub observed-buckets :
    (bounds ds : List ℕ) → length ds < uint64_mod → (observed bounds ds).buckets ≡ tally bounds ds
unfolding observed observe new_histogram
observed-buckets bounds [] room = sym (tally-nil bounds)
observed-buckets bounds (d ∷ ds) room =
    ap (count_in_bucket bounds d) (observed-buckets bounds ds (omega arith))
    ∙ tally-cons bounds d ds (omega arith)
