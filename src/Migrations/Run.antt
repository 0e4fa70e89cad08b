-- ===== src/Migrations/Run.antt =====
-- internal/storage/postgres/migrations.go: the run of the migrations, over the state of the database.
-- The statements of the connection are its operations.
pub mod History
pub mod Again
use url_shortner.Prelude.{
  ℕ, Bool, true, false, not, Option, none, some, List, [], ◌∷◌, ◌++◌, if◌then◌else◌,
}
use url_shortner.Text.{Text, text_eq}
use url_shortner.Io.{deferring, wrapping, Io, lift, pure, ◌>>=◌, ◌>>◌}
use url_shortner.Ports.{Context}
use url_shortner.Postgres.{DbError, no_rows, server, other, driver_error, Answer, refused, done}
use url_shortner.Errors.{Result, ok, err, foreign, wrapped, wrap}
use url_shortner.Migrations.{Entry, Migration, discover_migrations}

-- The connection: parsing its URL, opening it, and the statements that the program sends; a
-- deferred one has no result that counts.
pub record Connection (S : Type 0) : Type 0 where
  pub parse_config : Text → Result (Unit {0})
  pub connect : Context → Text → Io S (Unit {0})
  pub lock : Context → Io S (Unit {0})
  pub create_history : Context → Io S (Unit {0})
  pub select_checksum : Context → ℕ → S → Answer Text × S
  pub begin_transaction : Context → Io S (Unit {0})
  pub execute : Context → Text → Io S (Unit {0})
  -- version, name, checksum
  pub insert_history : Context → ℕ → Text → Text → Io S (Unit {0})
  pub commit : Context → Io S (Unit {0})
  pub rollback : S → S
  pub unlock : S → S
  pub close : S → S

-- The switch of migrationWasApplied.
unfoldable pub history_says : Migration → Answer Text → Result Bool
history_says candidate (done stored_checksum) =
    if text_eq stored_checksum candidate.checksum then ok true else err (foreign 34)
history_says candidate (refused no_rows) = ok false
history_says candidate (refused (server code)) = err (wrapped (driver_error (server code)))
history_says candidate (refused (other n)) = err (wrapped (driver_error (other n)))

module _ {S : Type 0} (connection : Connection S) where
  unfoldable pub migration_was_applied : Context → Migration → Io S Bool
  unfolding history_says
  migration_was_applied ctx candidate s =
      let (answer, s') = connection.select_checksum ctx candidate.version s in
      (history_says candidate answer, s')

  -- The transaction of applyMigration, once it is open.
  unfoldable pub in_transaction : Context → Migration → Io S (Unit {0})
  in_transaction ctx candidate = do
    wrapping (connection.execute ctx candidate.sql)
    wrapping (connection.insert_history ctx candidate.version candidate.name candidate.checksum)
    wrapping (connection.commit ctx)

  unfoldable pub apply_migration : Context → Migration → Io S (Unit {0})
  unfolding in_transaction
  apply_migration ctx candidate = do
    wrapping (connection.begin_transaction ctx)
    deferring connection.rollback (in_transaction ctx candidate)

  -- `for _, candidate := range migrations`
  unfoldable pub apply_each : Context → List Migration → List Text → Io S (List Text)
  unfolding migration_was_applied apply_migration
  apply_each ctx [] applied = pure applied
  apply_each ctx (candidate ∷ rest) applied = do
    was_applied ← migration_was_applied ctx candidate
    let go_on = apply_each ctx rest
    let apply_it = apply_migration ctx candidate >> go_on (applied ++ candidate.name ∷ [])
    if was_applied then go_on applied else apply_it

  unfoldable pub run_locked : Context → List Migration → Io S (List Text)
  unfolding apply_each
  run_locked ctx migrations = do
    wrapping (connection.create_history ctx)
    apply_each ctx migrations []

  unfoldable pub run_connected : Context → List Migration → Io S (List Text)
  unfolding run_locked
  run_connected ctx migrations = do
    wrapping (connection.lock ctx)
    deferring connection.unlock (run_locked ctx migrations)

  unfoldable pub run_migrations :
      (Text → Text) → Context → Text → Option (List Entry) → Io S (List Text)
  unfolding run_connected
  run_migrations sha256_hex ctx database_url directory = do
    migrations ← lift (discover_migrations sha256_hex directory)
    lift (wrap (connection.parse_config database_url))
    wrapping (connection.connect ctx database_url)
    deferring connection.close (run_connected ctx migrations)
