-- ===== src/Postgres/Repository.antt =====
-- internal/link/adapters/postgres/repository.go
pub mod Updates
pub mod RoundTrip
use url_shortner.Prelude.{ℕ, Bool, true, false, Option, none, some, ◌==◌, if◌then◌else◌}
use url_shortner.Prelude.Int.{ℤ, pos, negsuc}
use url_shortner.Text.{Text}
use url_shortner.Errors.{
  Result, ok, err, fail, ◌>>=◌, link_already_exists, link_not_found, version_conflict, zero_version,
}
use url_shortner.Io.{Io}
use url_shortner.Net.{UrlLib}
use url_shortner.Domain.Status.{to_string, parse_link_status}
use url_shortner.Domain.Destination.{new_destination_url}
use url_shortner.Domain.Link.{Link, rehydrate_link}
use url_shortner.Ports.{Context, LinkRepository}
use url_shortner.Postgres.{
  LinkRow, UpdateArguments, DbError, no_rows, server, other, driver_error, Answer, refused, done,
  Pool, is_unique_violation,
}

-- The arguments of the insert.
abbrev pub row_of : Link → LinkRow
row_of l = record {
  code = l.code;
  destination_url = l.destination.value;
  owner_id = l.owner_id;
  status = to_string l.status;
  created_at = l.created_at;
  updated_at = l.updated_at;
  expires_at = l.expires_at;
  version = pos l.version;
}

abbrev pub update_of : Link → ℕ → UpdateArguments
update_of l expected_version = record {
  destination_url = l.destination.value;
  status = to_string l.status;
  updated_at = l.updated_at;
  expires_at = l.expires_at;
  version = l.version;
  code = l.code;
  expected_version = expected_version;
}

unfoldable pub insert_result : Answer ℕ → Result (Unit {0})
insert_result (done n) = ok tt
insert_result (refused e) =
    if is_unique_violation e then fail link_already_exists else err (driver_error e)

-- `if version < 0 { return ErrZeroVersion }`, and the conversion to uint64
abbrev pub stored_version : ℤ → Result ℕ
stored_version (pos n) = ok n
stored_version (negsuc n) = fail zero_version

-- scanLink, on a row that the driver could scan
unfoldable pub scan_link : UrlLib → LinkRow → Result Link
scan_link lib row = do
  destination ← new_destination_url lib row.destination_url
  status ← parse_link_status row.status
  version ← stored_version row.version
  rehydrate_link row.code destination row.owner_id status row.created_at row.updated_at
      row.expires_at version

unfoldable pub find_result : UrlLib → Answer LinkRow → Result Link
unfolding scan_link
find_result lib (done row) = scan_link lib row
find_result lib (refused no_rows) = fail link_not_found
find_result lib (refused (server code)) = err (driver_error (server code))
find_result lib (refused (other n)) = err (driver_error (other n))

abbrev pub exists_result : Answer Bool → Result Bool
exists_result (done exists) = ok exists
exists_result (refused e) = err (driver_error e)

-- What Update says when no row was updated.
unfoldable pub missed_update : Result Bool → Result (Unit {0})
missed_update (err e) = err e
missed_update (ok exists) = if exists then fail version_conflict else fail link_not_found

module _ {S : Type 0} (pool : Pool S) (lib : UrlLib) where
  unfoldable pub insert : Context → Link → Io S (Unit {0})
  unfolding insert_result
  insert ctx link s =
      let (answer, s') = pool.insert_link ctx (row_of link) s in (insert_result answer, s')

  unfoldable pub find_by_code : Context → Text → Io S Link
  unfolding find_result
  find_by_code ctx code s =
      let (answer, s') = pool.select_link ctx code s in (find_result lib answer, s')

  unfoldable pub link_exists : Context → Text → Io S Bool
  link_exists ctx code s =
      let (answer, s') = pool.select_exists ctx code s in (exists_result answer, s')

  -- Update, from the answer to its first statement on
  unfoldable pub after_update : Context → Text → Answer ℕ → Io S (Unit {0})
  unfolding missed_update link_exists
  after_update ctx code (refused e) s = (err (driver_error e), s)
  after_update ctx code (done rows_affected) s =
      let (exists, s') = link_exists ctx code s in
      if rows_affected == 1 then (ok tt, s) else (missed_update exists, s')

  unfoldable pub update : Context → Link → ℕ → Io S (Unit {0})
  unfolding after_update
  update ctx link expected_version s =
      let (answer, s') = pool.update_link ctx (update_of link expected_version) s in
      after_update ctx link.code answer s'

  abbrev pub repository : LinkRepository S
  repository = record { insert = insert; find_by_code = find_by_code; update = update }
