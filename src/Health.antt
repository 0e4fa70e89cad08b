-- ===== src/Health.antt =====
-- internal/health/health.go. A checker acts on a state; nil is `none`. The measured latencies, which
-- decide nothing, are left out, and so is the JSON of the answers.
pub mod Verdict
use url_shortner.Prelude.{
  ℕ, Bool, true, false, Option, none, some, List, [], ◌∷◌, GoMap, if◌then◌else◌,
}
use url_shortner.Prelude.Int.{pos}
use url_shortner.Prelude.Maps.{insert}
use url_shortner.Text.{Text, codes, text_eq, is_empty, text_key}
use url_shortner.Time.{Duration}
use url_shortner.Errors.{Error, Result, ok, err}
use url_shortner.Io.{Io}
use url_shortner.Ports.{Context}
use url_shortner.Application.Cache.{WithTimeout}
use url_shortner.Access.{TokenHeaders, authorized}

-- 2 * time.Second
abbrev pub readiness_timeout : Duration
readiness_timeout = pos 2_000_000_000

abbrev pub Checker : Type 0 → Type 0
Checker S = Context → Io S (Unit {0})

pub record ComponentCheck (S : Type 0) : Type 0 where
  pub name : Text
  pub required : Bool
  pub checker : Option (Checker S)

-- diagnosticCheckResponse; its error message is that of the checker, or that there is none.
pub data CheckStatus : Type 0 where
  passing : CheckStatus
  failing : Error → CheckStatus
  not_configured : CheckStatus

pub record CheckResponse : Type 0 where
  pub status : CheckStatus
  pub required : Bool

-- `result.Status == "ok"`
abbrev pub is_ok : CheckStatus → Bool
is_ok passing = true
is_ok (failing e) = false
is_ok not_configured = false

-- The answer of the diagnostics: a refusal with a status code, or a report.
pub record Report : Type 0 where
  pub status : Text
  pub status_code : ℕ
  pub checks : GoMap Text CheckResponse

pub data Answer : Type 0 where
  plain : ℕ → Text → Answer
  report : Report → Answer

abbrev pub checked : Result (Unit {0}) → CheckStatus
checked (ok done) = passing
checked (err e) = failing e

abbrev ready_answer : Result (Unit {0}) → Answer
ready_answer (ok done) = plain 200 (codes "ok")
ready_answer (err e) = plain 503 (codes "not_ready")

unfoldable pub liveness : Answer
liveness = plain 200 (codes "ok")

-- What the loop does with the response to a check.
unfoldable pub add_result : Text → CheckResponse → Report → Report
add_result name result so_far =
    let checks = insert name result so_far.checks in
    if is_ok result.status
    then record so_far { checks = checks }
    else if result.required
    then record { status = codes "not_ready"; status_code = 503; checks = checks }
    else if text_eq so_far.status (codes "ok")
    then record so_far { status = codes "degraded"; checks = checks }
    else record so_far { checks = checks }

abbrev pub empty_report : Report
empty_report = record { status = codes "ok"; status_code = 200; checks = [] }

module _ {S : Type 0} (with_timeout : WithTimeout) (ctx : Context) where
  unfoldable pub readiness : Option (Checker S) → S → Answer × S
  readiness none s = (plain 503 (codes "not_ready"), s)
  readiness (some check) s =
      let (answer, s') = check (with_timeout ctx readiness_timeout) s in (ready_answer answer, s')

  unfoldable pub run_checker : Option (Checker S) → S → CheckStatus × S
  run_checker none s = (not_configured, s)
  run_checker (some check) s =
      let (answer, s') = check (with_timeout ctx readiness_timeout) s in (checked answer, s')

  unfoldable pub run_component_check : ComponentCheck S → S → CheckResponse × S
  unfolding run_checker
  run_component_check check s =
      let (status, s') = run_checker check.checker s in
      (record { status = status; required = check.required }, s')

  -- `for _, check := range h.diagnostics`
  unfoldable pub run_checks : List (ComponentCheck S) → Report → S → Report × S
  unfolding add_result run_component_check
  run_checks [] so_far s = (so_far, s)
  run_checks (check ∷ rest) so_far s =
      let (result, s') = run_component_check check s in
      run_checks rest (add_result check.name result so_far) s'

  unfoldable pub diagnostics :
      (Text → Text) → List (ComponentCheck S) → Text → TokenHeaders → S → Answer × S
  diagnostics sha256 checks token headers s =
      if is_empty token
      then (plain 404 (codes "not_found"), s)
      else if authorized sha256 headers token
      then (let (r, s') = run_checks checks empty_report s in (report r, s'))
      else (plain 401 (codes "unauthorized"), s)
