-- ===== src/Postgres/Store.antt =====
-- internal/link/adapters/postgres/idempotency.go and
-- internal/analytics/adapters/postgres/redirect_event_recorder.go
pub mod Keys
use url_shortner.Prelude.{ℕ, not, ◌==◌, if◌then◌else◌}
use url_shortner.Text.{Text, text_eq}
use url_shortner.Errors.{
  Result, ok, err, fail, fail_if, idempotency_key_not_found, idempotency_key_conflict,
}
use url_shortner.Io.{Io}
use url_shortner.Net.{UrlLib}
use url_shortner.Domain.Link.{Link}
use url_shortner.Ports.{Context, IdempotencyStore}
use url_shortner.Analytics.{RedirectEvent, RedirectEventRecorder}
use url_shortner.Postgres.{
  DbError, no_rows, server, other, driver_error, Answer, refused, done, Pool,
}
use url_shortner.Postgres.Repository.{find_by_code}

-- Save, on the code that stands under the key.
unfoldable pub existing_result : Text → Answer Text → Result (Unit {0})
existing_result code (refused e) = err (driver_error e)
existing_result code (done existing) =
    fail_if (not (text_eq existing code)) idempotency_key_conflict

abbrev pub done_or_error {ℓ} : {A : Type ℓ} → Answer A → Result (Unit {0})
done_or_error (refused e) = err (driver_error e)
done_or_error (done a) = ok tt

module _ {S : Type 0} (pool : Pool S) (lib : UrlLib) where
  unfoldable pub found_key : Context → Answer Text → Io S Link
  found_key ctx (refused no_rows) s = (fail idempotency_key_not_found, s)
  found_key ctx (refused (server code)) s = (err (driver_error (server code)), s)
  found_key ctx (refused (other n)) s = (err (driver_error (other n)), s)
  found_key ctx (done code) s = find_by_code pool lib ctx code s

  unfoldable pub get : Context → Text → Text → Io S Link
  unfolding found_key
  get ctx owner_id key s =
      let (answer, s') = pool.select_key ctx owner_id key s in found_key ctx answer s'

  -- Save, from the answer to its insert on
  unfoldable pub after_insert : Context → Text → Text → Text → Answer ℕ → Io S (Unit {0})
  unfolding existing_result
  after_insert ctx owner_id key code (refused e) s = (err (driver_error e), s)
  after_insert ctx owner_id key code (done rows_affected) s =
      let (existing, s') = pool.select_key ctx owner_id key s in
      if rows_affected == 1 then (ok tt, s) else (existing_result code existing, s')

  unfoldable pub save : Context → Text → Text → Link → Io S (Unit {0})
  unfolding after_insert
  save ctx owner_id key link s =
      let (answer, s') = pool.insert_key ctx owner_id key link.code link.created_at s in
      after_insert ctx owner_id key link.code answer s'

  abbrev pub store : IdempotencyStore S
  store = record { get = get; save = save }

  unfoldable pub insert_redirect_event : Context → RedirectEvent → Io S (Unit {0})
  insert_redirect_event ctx event s =
      let (answer, s') = pool.insert_event ctx event s in (done_or_error answer, s')

  abbrev pub event_recorder : RedirectEventRecorder S
  event_recorder = record { record_event = insert_redirect_event }
