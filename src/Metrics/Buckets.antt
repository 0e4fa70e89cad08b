-- ===== src/Metrics/Buckets.antt =====
-- What the histogram's counters say of the durations that it has seen.
use url_shortner.Prelude.{ℕ, suc, ◌+◌, ◌≤◌, ◌<◌, ◌≡◌, refl, List, [], ◌∷◌, length, All, arith}
use url_shortner.Time.{uint64_mod}
use url_shortner.Metrics.{Histogram, new_histogram, observe}

-- The histogram after these durations, the last of them first.
unfoldable pub observed : List ℕ → List ℕ → Histogram
observed bounds [] = new_histogram bounds
observed bounds (d ∷ ds) = observe bounds d (observed bounds ds)

abbrev pub Within : Histogram → List ℕ → Type 0
Within h ds = All (λ d. (h.min ≤ d) × (d ≤ h.max)) ds

widen : (g h : Histogram) (ds : List ℕ) → h.min ≤ g.min → g.max ≤ h.max → Within g ds → Within h ds
widen g h [] low high w = tt
widen g h (d ∷ ds) low high w = ((omega arith, omega arith), widen g h ds low high w.1)

observe_range :
    (bounds : List ℕ) (d : ℕ) (h : Histogram) (ds : List ℕ)
    → length ds + 1 < uint64_mod
    → h.count ≡ length ds
    → Within h ds
    → ((observe bounds d h).count ≡ suc (length ds)) × Within (observe bounds d h) (d ∷ ds)
unfolding observe
observe_range bounds d h [] room e w = (ground arith, ((ground arith, ground arith), tt))
observe_range bounds d h (c ∷ ds) room e w = (
  ground arith,
  (
    (ground arith, ground arith),
    widen h (observe bounds d h) (c ∷ ds) (ground arith) (ground arith) w,
  ),
)

-- A histogram counts every duration that it observes, and every one of them lies between its
-- minimum and its maximum, while the counter does not wrap.
pub observed_range :
    (bounds ds : List ℕ)
    → length ds < uint64_mod
    → ((observed bounds ds).count ≡ length ds) × Within (observed bounds ds) ds
unfolding observed new_histogram
observed_range bounds [] h = (refl, tt)
observed_range bounds (d ∷ ds) h =
    let (count, within) = observed_range bounds ds (omega arith) in
    observe_range bounds d (observed bounds ds) ds (omega arith) count within
