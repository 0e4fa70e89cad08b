-- ===== src/Tests/Operations.antt =====
-- Examples on the operation of the server: metrics, health checks and the token check.
use url_shortner.Prelude.{
  ◌++◌, ℕ, ◌*◌, ◌≤◌, ◌≡◌, ◌↔◌, refl, true, false, none, some, List, [], ◌∷◌, length, arith,
}
use url_shortner.Prelude.Int.{pos, negsuc}
use url_shortner.Text.{Text, codes, text_eq, is_empty}
use url_shortner.Errors.{foreign}
use url_shortner.Io.{pure, raise}
use url_shortner.Access.{TokenHeaders, authorized}
use url_shortner.Access.Tokens.{Carries, authorized_iff}
use url_shortner.Health.{ComponentCheck, empty_report, run_checks}
use url_shortner.Health.Verdict.{failures, run_checks-verdict}
use url_shortner.Metrics.{latency_buckets, percentile_upper_bound}
use url_shortner.Metrics.Buckets.{observed}
use url_shortner.Metrics.Tally.{count_le}
use url_shortner.Metrics.Percentile.{percentile_covers}
use url_shortner.Metrics.Recorder.Counters.{
  Call, redirect, analytics, latency, recorded, histogram, recorded-histogram,
}

abbrev seen : List ℕ
seen = 3 ∷ 1_000_001 ∷ 7_000_000 ∷ []

percentile_covers_example :
    length seen * 95
    ≤ 100
      * count_le (percentile_upper_bound latency_buckets 95 (observed latency_buckets seen)) seen
percentile_covers_example =
    percentile_covers latency_buckets 95 seen (ground arith) (omega arith) (omega arith)
      (omega arith) (omega arith) (omega arith)

-- Two redirects, of which the first was not found, and an analytics event.
abbrev calls : List Call
calls =
    record { method = analytics; result = codes ""; duration = pos 9 }
    ∷ record { method = redirect; result = codes "success"; duration = pos 2_000_000 }
    ∷ record { method = redirect; result = codes "not_found"; duration = negsuc 4 }
    ∷ []

recorded-histogram_example :
    histogram (latency redirect) (recorded 8 calls)
    ≡ some (observed latency_buckets (2_000_000 ∷ 0 ∷ []))
unfolding text_eq
recorded-histogram_example = recorded-histogram 8 calls (latency redirect)

-- A required check that passes, another one that fails, and a required one without a checker.
abbrev checks : List (ComponentCheck ℕ)
checks =
    record { name = codes "postgres"; required = true; checker = some (λ ctx. pure tt) }
    ∷ record { name = codes "redis"; required = false; checker = some (λ ctx. raise (foreign 5)) }
    ∷ record { name = codes "clock"; required = true; checker = none }
    ∷ []

-- The code and the status that the failures of these checks ask for.
run_checks-verdict_example :
    let r = (run_checks (λ ctx d. ctx) none checks empty_report 0).0 in
    (r.status ≡ codes "not_ready") × (r.status_code ≡ 503)
unfolding failures
run_checks-verdict_example = run_checks-verdict (λ ctx d. ctx) none checks 0

abbrev headers : TokenHeaders
headers = record { diagnostics_token = []; admin_token = []; authorization = codes "Bearer secret" }

there : is_empty (codes "secret") ≡ false
unfolding is_empty
there = refl

-- A digest of a text, for the examples.
abbrev digest : Text → Text
digest t = codes "digest of " ++ t

authorized_iff_example :
    (authorized digest headers (codes "secret") ≡ true)
    ↔ Carries digest (codes "secret") there headers
authorized_iff_example = authorized_iff digest (codes "secret") there headers refl
