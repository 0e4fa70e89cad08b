-- ===== src/Health/Verdict.antt =====
-- What the diagnostics say of the checks.
use mathlib.Core.Path.{subst}
use url_shortner.Errors.{Result, ok, err}
use url_shortner.Prelude.Int.{pos}
use url_shortner.Prelude.{
  sym, Option, none, some, ℕ, ◌≡◌, refl, Bool, true, false, not, ◌&&◌, ◌||◌, List, [], ◌∷◌, arith,
  if◌then◌else◌,
}
use url_shortner.Text.{Text, codes, text_eq}
use url_shortner.Ports.{Context}
use url_shortner.Application.Cache.{WithTimeout}
use url_shortner.Health.{
  Checker, checked, run_checker, ComponentCheck, CheckResponse, Report, is_ok, add_result,
  empty_report, run_component_check, run_checks,
}

-- The answer to some failures, and to some failures of required checks.
abbrev pub verdict_status : Bool → Bool → Text
verdict_status failed required =
    if required then codes "not_ready" else if failed then codes "degraded" else codes "ok"

abbrev pub verdict_code : Bool → ℕ
verdict_code required = if required then 503 else 200

-- A report after failures of these kinds.
record Says (failed required : Bool) (r : Report) : Type 0 where
  status : r.status ≡ verdict_status failed required
  code : r.status_code ≡ verdict_code required

Says-empty_report : Says false false empty_report
Says-empty_report = record { status = refl; code = refl }

-- A response adds its failure, and that of a required check, to those before it.
Says-add_result :
    (name : Text) (failed required : Bool) (c : CheckResponse) (r : Report)
    → Says failed required r
    → Says
        (failed || not (is_ok c.status))
        (required || (not (is_ok c.status) && c.required))
        (add_result name c r)
unfolding add_result text_eq
Says-add_result name false false c r says =
    let e = says.status in
    let d = says.code in record { status = ground arith; code = ground arith }
Says-add_result name true false c r says =
    let e = says.status in
    let d = says.code in record { status = ground arith; code = ground arith }
Says-add_result name false true c r says =
    let e = says.status in
    let d = says.code in record { status = ground arith; code = ground arith }
Says-add_result name true true c r says =
    let e = says.status in
    let d = says.code in record { status = ground arith; code = ground arith }

Says-or_assoc :
    (a b c x y z : Bool) (r : Report)
    → Says ((a || b) || c) ((x || y) || z) r
    → Says (a || (b || c)) (x || (y || z)) r
Says-or_assoc false b c false y z r says = says
Says-or_assoc false b c true y z r says = says
Says-or_assoc true b c false y z r says = says
Says-or_assoc true b c true y z r says = says

-- What an answer of a checker says: only an error is a failure.
abbrev failed_answer : Result (Unit {0}) → Bool
failed_answer (ok done) = false
failed_answer (err e) = true

checked_lem : (a : Result (Unit {0})) → not (is_ok (checked a)) ≡ failed_answer a
checked_lem (ok done) = refl
checked_lem (err e) = refl

abbrev pub any_required : {S : Type 0} → List (ComponentCheck S) → Bool
any_required [] = false
any_required (check ∷ rest) = check.required || any_required rest

abbrev pub is_there : {S : Type 0} → List (ComponentCheck S) → Bool
is_there [] = false
is_there (check ∷ rest) = true

Says-failures :
    {S : Type 0} (fails : Bool) (check : ComponentCheck S) (later : List (ComponentCheck S))
    (failed required : Bool) (r : Report)
    → Says
        ((failed || fails) || is_there later)
        ((required || (fails && check.required)) || any_required later)
        r
    → let fs = if fails then check ∷ later else later in
      Says (failed || is_there fs) (required || any_required fs) r
Says-failures false check later failed required r says =
    Says-or_assoc failed false (is_there later) required false (any_required later) r says
Says-failures true check later failed required r says =
    Says-or_assoc failed true (is_there later) required check.required (any_required later) r says

module _ {S : Type 0} (with_timeout : WithTimeout) (ctx : Context) where
  -- Whether a check fails, and the state after it: it fails if it has no checker, or if its checker,
  -- which gets two seconds, answers with an error.
  abbrev outcome : Option (Checker S) → S → Bool × S
  outcome none s = (true, s)
  outcome (some checker) s =
      let (answer, s') = checker (with_timeout ctx (pos 2_000_000_000)) s in
      (failed_answer answer, s')

  -- The checks that fail, each called in the state that the one before it left.
  unfoldable pub failures : List (ComponentCheck S) → S → List (ComponentCheck S)
  failures [] s = []
  failures (check ∷ rest) s =
      let (failed, s') = outcome check.checker s in
      let later = failures rest s' in if failed then check ∷ later else later

  run_checker-outcome :
      (o : Option (Checker S)) (s : S)
      → (not (is_ok (run_checker with_timeout ctx o s).0) ≡ (outcome o s).0)
        × ((run_checker with_timeout ctx o s).1 ≡ (outcome o s).1)
  unfolding run_checker
  run_checker-outcome none s = (refl, refl)
  run_checker-outcome (some checker) s =
      (checked_lem (checker (with_timeout ctx (pos 2_000_000_000)) s).0, refl)

  run_checks-Says :
      (checks : List (ComponentCheck S)) (failed required : Bool) (r : Report) (s : S)
      → Says failed required r
      → Says
          (failed || is_there (failures checks s))
          (required || any_required (failures checks s))
          (run_checks with_timeout ctx checks r s).0
  unfolding run_checks run_component_check failures
  run_checks-Says [] failed required r s says = ground arith
  run_checks-Says (check ∷ rest) failed required r s says =
      let result = (run_component_check with_timeout ctx check s).0 in
      let (fails, after) = outcome check.checker s in
      let (same, same_state) = run_checker-outcome check.checker s in
      let later = failures rest after in
      let so_far = add_result check.name result r in
      let added =
        subst (λ (b : Bool). Says (failed || b) (required || (b && check.required)) so_far) same
          (Says-add_result check.name failed required result r says) in
      Says-failures fails check later failed required _ (
        subst
          (λ (t : S).
            Says ((failed || fails) || is_there later)
              ((required || (fails && check.required)) || any_required later)
              (run_checks with_timeout ctx rest so_far t).0)
          (sym same_state)
          (run_checks-Says rest (failed || fails) (required || (fails && check.required)) so_far
            after added))

  -- The report of the diagnostics: its status is not_ready, with code 503, exactly if a required
  -- check fails, degraded, with code 200, if only other checks fail, and ok, with code 200, if none
  -- does. A check fails if it has no checker or if its checker answers with an error; each is
  -- called in the state that the one before it left.
  pub run_checks-verdict :
      (checks : List (ComponentCheck S)) (s : S)
      → (let r = (run_checks with_timeout ctx checks empty_report s).0 in
          let fs = failures checks s in
          (r.status ≡ verdict_status (is_there fs) (any_required fs))
          × (r.status_code ≡ verdict_code (any_required fs)))
  run_checks-verdict checks s =
      let says = run_checks-Says checks false false empty_report s Says-empty_report in
      (says.status, says.code)
