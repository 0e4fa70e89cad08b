-- ===== src/Tests/Schema.antt =====
-- Examples on the migrations: a directory of four entries, and a database that keeps the history and
-- the open transaction's view of it.
use url_shortner.Prelude.{
  ℕ, ◌≡◌, refl, true, false, Option, none, some, List, [], ◌∷◌, ◌==◌, All, arith, if◌then◌else◌,
}
use url_shortner.Text.{Text, codes, text_eq, is_empty}
use url_shortner.Text.Decimal.{is_digit, value, all_digits, parse_uint}
use url_shortner.Errors.{Result, ok, err, foreign}
use url_shortner.Postgres.{Answer, refused, done, no_rows}
use url_shortner.Redis.Decode.{parse_int}
use url_shortner.Migrations.{
  Entry, Migration, span_digits, stem, all_dots, migration_digits, has_version, insert_sorted,
  sort_by_version, add_migration, collect, discover_migrations,
}
use url_shortner.Migrations.Order.{Ascends, Covered, discover_migrations-Ascends}
use url_shortner.Migrations.Run.{
  Connection, history_says, migration_was_applied, in_transaction, apply_migration, apply_each,
  run_locked, run_connected, run_migrations,
}
use url_shortner.Migrations.Run.History.{ConnectionLaws, Recorded, Grows, run_migrations-Recorded}
use url_shortner.Migrations.Run.Again.{Reachable, run_migrations-again}

abbrev file : Text → Text → Entry
file name contents = record { name = name; is_dir = false; contents = some contents }

abbrev entries : List Entry
entries =
    file (codes "10_b.sql") (codes "B")
    ∷ file (codes "2_a.sql") (codes "A")
    ∷ file (codes "README.md") (codes "R")
    ∷ record { name = codes "3_c.sql"; is_dir = true; contents = none }
    ∷ []

abbrev first : Migration
first = record { version = 2; name = codes "2_a.sql"; sql = codes "A"; checksum = codes "A" }

abbrev second : Migration
second = record { version = 10; name = codes "10_b.sql"; sql = codes "B"; checksum = codes "B" }

-- With a text for its own checksum.
abbrev as_is : Text → Text
as_is t = t

discovered : discover_migrations as_is (some entries) ≡ ok (first ∷ second ∷ [])
unfolding discover_migrations collect add_migration migration_digits span_digits stem all_dots
    has_version insert_sorted sort_by_version parse_int parse_uint is_digit value all_digits text_eq
    is_empty
discovered = refl

discover_migrations-Ascends_example :
    Ascends 0 (first ∷ second ∷ []) × All (Covered as_is (first ∷ second ∷ [])) entries
discover_migrations-Ascends_example =
    discover_migrations-Ascends as_is entries (first ∷ second ∷ []) discovered

-- The committed history, and what the open transaction sees.
abbrev Histories : Type 0
Histories = (ℕ → Option Text) × (ℕ → Option Text)

abbrev shown : Option Text → Answer Text
shown none = refused no_rows
shown (some c) = done c

abbrev added : ℕ → Text → Histories → Option Text → Result (Unit {0}) × Histories
added w checksum (old, now) none = (ok tt, (old, λ v. if w == v then some checksum else now v))
added w checksum s (some c) = (err (foreign 9), s)

abbrev database : Connection Histories
database = record {
  parse_config = λ url. ok tt;
  connect = λ ctx url s. (ok tt, s);
  lock = λ ctx s. (ok tt, s);
  create_history = λ ctx s. (ok tt, s);
  select_checksum = λ ctx v s. (shown (s.0 v), s);
  begin_transaction = λ ctx s. (ok tt, (s.0, s.0));
  execute = λ ctx sql s. (ok tt, s);
  insert_history = λ ctx w name checksum s. added w checksum s (s.1 w);
  commit = λ ctx s. (ok tt, (s.1, s.1));
  rollback = λ s. (s.0, s.0);
  unlock = λ s. s;
  close = λ s. s;
}

shown-done : (o : Option Text) (c : Text) → shown o ≡ done c → o ≡ some c
shown-done none c h = absurd (ground arith)
shown-done (some d) c h = ground arith

shown-no_rows : (o : Option Text) → shown o ≡ refused no_rows → o ≡ none
shown-no_rows none h = refl
shown-no_rows (some d) h = absurd (ground arith)

added-ok :
    (w : ℕ) (checksum : Text) (s : Histories) (o : Option Text) (v : ℕ)
    → (added w checksum s o).0 ≡ ok tt
    → (added w checksum s o).1.1 v ≡ (if w == v then some checksum else s.1 v)
added-ok w checksum s none v h = refl
added-ok w checksum s (some c) v h = absurd (ground arith)

database_laws : ConnectionLaws database
database_laws = record {
  history = λ s. s.0;
  pending = λ s. s.1;
  Harmless = λ sql. Unit;
  connect_keeps = λ ctx url s v. refl;
  lock_keeps = λ ctx s v. refl;
  create_keeps = λ ctx s v. refl;
  select_keeps = λ ctx w s v. refl;
  select_done = λ ctx v s c h. shown-done (s.0 v) c h;
  select_no_rows = λ ctx v s h. shown-no_rows (s.0 v) h;
  begin_ok = λ ctx s v h. refl;
  execute_ok = λ ctx sql s v harmless h. refl;
  insert_ok = λ ctx w name checksum s v h. added-ok w checksum s (s.1 w) v h;
  commit_ok = λ ctx s v h. refl;
  rollback_keeps = λ s v. refl;
  unlock_keeps = λ s v. refl;
  close_keeps = λ s v. refl;
}

abbrev fresh : Histories
fresh = (λ v. none, λ v. none)

ran :
    (run_migrations database as_is none [] (some entries) fresh).0
    ≡ ok (codes "2_a.sql" ∷ codes "10_b.sql" ∷ [])
unfolding discover_migrations collect add_migration migration_digits span_digits stem all_dots
    has_version insert_sorted sort_by_version parse_int parse_uint is_digit value all_digits text_eq
    is_empty run_migrations run_connected run_locked apply_each apply_migration in_transaction
    migration_was_applied history_says
ran = refl

run_migrations-Recorded_example :
    Grows database database_laws none fresh
      (run_migrations database as_is none [] (some entries) fresh).1
    × All
        (Recorded database database_laws none
          (run_migrations database as_is none [] (some entries) fresh).1)
        (first ∷ second ∷ [])
unfolding database_laws
run_migrations-Recorded_example =
    run_migrations-Recorded database database_laws none as_is [] (some entries) fresh
      (first ∷ second ∷ []) discovered (tt, (tt, tt)) ran

reachable : Reachable database database_laws none []
unfolding database_laws
reachable = record {
  parses = refl;
  connects = λ s. refl;
  locks = λ s. refl;
  creates = λ s. refl;
  selects = λ v s c h. rw h refl;
}

abbrev known : Histories
known = (λ v. if v == 2 then some (codes "A") else some (codes "B"), λ v. none)

run_migrations-again_example :
    (run_migrations database as_is none [] (some entries) known).0 ≡ ok []
unfolding database_laws
run_migrations-again_example =
    run_migrations-again database database_laws none [] reachable as_is (some entries) known
      (first ∷ second ∷ []) discovered (refl, (refl, tt))
