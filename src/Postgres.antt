-- ===== src/Postgres.antt =====
-- The PostgreSQL driver (pgx), as the adapters in internal/link/adapters/postgres and
-- internal/analytics/adapters/postgres use it: each of their SQL statements is an operation of the
-- database, with its arguments, and answers with the rows affected or the row that it read.
pub mod Laws
pub mod Repository
pub mod Store
use url_shortner.Prelude.{ℕ, Bool, true, false, Option}
use url_shortner.Prelude.Int.{ℤ}
use url_shortner.Text.{Text, codes, text_eq}
use url_shortner.Time.{Time}
use url_shortner.Errors.{Error, foreign}
use url_shortner.Ports.{Context}
use url_shortner.Analytics.{RedirectEvent}

-- The columns of the table links.
pub record LinkRow : Type 0 where
  pub code : Text
  pub destination_url : Text
  pub owner_id : Text
  pub status : Text
  pub created_at : Time
  pub updated_at : Time
  pub expires_at : Option Time
  pub version : ℤ

-- The arguments of the update, in their order.
pub record UpdateArguments : Type 0 where
  pub destination_url : Text
  pub status : Text
  pub updated_at : Time
  pub expires_at : Option Time
  pub version : ℕ
  pub code : Text
  pub expected_version : ℕ

-- What can go wrong: pgx.ErrNoRows, an error of the server with its code, or any other error, of a
-- context or a connection.
pub data DbError : Type 0 where
  no_rows : DbError
  server : Text → DbError
  other : ℕ → DbError

-- The Go error: it is none of the program's sentinels.
abbrev pub driver_error : DbError → Error
driver_error no_rows = foreign 20
driver_error (server code) = foreign 21
driver_error (other n) = foreign n

pub data Answer {ℓ} (A : Type ℓ) : Type ℓ where
  refused : DbError → Answer A
  done : A → Answer A

pub record Pool (S : Type 0) : Type 0 where
  pub insert_link : Context → LinkRow → S → Answer ℕ × S
  pub update_link : Context → UpdateArguments → S → Answer ℕ × S
  pub select_link : Context → Text → S → Answer LinkRow × S
  pub select_exists : Context → Text → S → Answer Bool × S
  -- owner_id, key; the code
  pub select_key : Context → Text → Text → S → Answer Text × S
  -- owner_id, key, code, created_at
  pub insert_key : Context → Text → Text → Text → Time → S → Answer ℕ × S
  pub insert_event : Context → RedirectEvent → S → Answer ℕ × S

unfoldable pub is_unique_violation : DbError → Bool
unfolding text_eq
is_unique_violation (server code) = text_eq code (codes "23505")
is_unique_violation _ = false
