-- ===== src/Tests/Database/Statements.antt =====
-- Examples on the adapters for PostgreSQL.
use url_shortner.Prelude.{◌≡◌, refl, none, some, [], ◌∷◌, arith}
use url_shortner.Prelude.Maps.{lookup, insert}
use url_shortner.Text.{
  codes, text_eq, trim_space, trim_left, trim_right, is_space, is_empty, to_lower, to_lower_rune,
}
use url_shortner.Time.{is_zero, zero_time}
use url_shortner.Errors.{ok, fail, version_conflict}
use url_shortner.Domain.Status.{active, disabled, to_string}
use url_shortner.Domain.Status
use url_shortner.Domain.Destination.{new_destination_url}
use url_shortner.Domain.Destination
use url_shortner.Domain.Link.{Link, expires_too_early}
use url_shortner.Domain.Link.Validity.{IsValid}
use url_shortner.Postgres.Laws.{kept}
use url_shortner.Postgres.Repository.{row_of, update, find_by_code}
use url_shortner.Postgres.Repository as Stored
use url_shortner.Postgres.Repository.Updates.{update-result}
use url_shortner.Postgres.Repository.RoundTrip.{cut, find_by_code-insert}
use url_shortner.Postgres.Store.{save}
use url_shortner.Postgres.Store.Keys.{save_result, entry_after, save-first_stays}
use url_shortner.Tests.World.{lib, home}
use url_shortner.Tests.Database.Pools.{Tables, pool, pool_laws}

-- An early link, whose times are cut down.
abbrev early : Link
early = record {
  code = codes "a";
  destination = home;
  owner_id = codes "ann";
  status = active;
  created_at = 3_456;
  updated_at = 3_999;
  expires_at = some 90_001;
  version = 1;
}

abbrev empty : Tables
empty = record { rows = []; keys = [] }

abbrev stored : Tables
stored = record { rows = (codes "a", kept (row_of early)) ∷ []; keys = [] }

abbrev off : Link
off = record early { status = disabled; updated_at = 7_000; version = 2 }

update-result_example : (update pool lib none off 7 stored).0 ≡ fail version_conflict
unfolding lookup text_eq
update-result_example = update-result pool lib pool_laws none off 7 stored

early-IsValid : IsValid (cut early)
unfolding trim_space trim_left trim_right is_space is_empty Destination.is_zero Status.is_valid
    is_zero zero_time expires_too_early
early-IsValid = record {
  code_trimmed = refl;
  code_there = refl;
  destination_there = refl;
  owner_trimmed = refl;
  owner_there = refl;
  status_named = refl;
  created_there = refl;
  updated_there = refl;
  updated_later = omega arith;
  expires_later = refl;
  versioned = λ e. omega arith;
}

normal : new_destination_url lib home.value ≡ ok home
unfolding new_destination_url trim_space trim_left trim_right is_space is_empty text_eq to_lower
    to_lower_rune
normal = refl

find_by_code-insert_example :
    (find_by_code pool lib none (codes "a") (Stored.insert pool lib none early empty).1).0
    ≡ ok (cut early)
unfolding lookup insert text_eq Stored.insert
find_by_code-insert_example =
    find_by_code-insert lib pool pool_laws none none early empty 1 (kept (row_of early)) normal
      early-IsValid refl refl

abbrev taken : Tables
taken = record stored {
  keys = (record { owner_id = codes "ann"; key = codes "k" }, codes "a") ∷ [];
}

-- The key stands for another code.
abbrev second : Link
second = record early { code = codes "b" }

save-first_stays_example :
    ((save pool lib none (codes "ann") (codes "k") second taken).0
      ≡ save_result (codes "b") (pool_laws.keys taken (codes "ann") (codes "k")))
    × (pool_laws.keys
          (save pool lib none (codes "ann") (codes "k") second taken).1
          (codes "ann")
          (codes "k")
        ≡ some (entry_after (codes "b") (pool_laws.keys taken (codes "ann") (codes "k"))))
unfolding lookup text_eq
save-first_stays_example =
    save-first_stays pool lib pool_laws none (codes "ann") (codes "k") second taken 0 (codes "a")
      refl refl
