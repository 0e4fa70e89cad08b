-- ===== src/Tests/Process.antt =====
-- Examples on the process: a server with PostgreSQL that a signal ends.
use mathlib.Core.Path.{subst}
use url_shortner.Prelude.{
  ℕ, ◌+◌, ◌-◌, ◌≡◌, refl, none, some, [], ◌∷◌, ◌↔◌, false, arith, if◌then◌else◌,
}
use url_shortner.Text.{
  codes, text_eq, is_empty, trim_space, trim_left, trim_right, is_space, to_lower, to_lower_rune,
}
use url_shortner.Errors.{ok, err, foreign, wrapped, joined}
use url_shortner.Io.{pure}
use url_shortner.Ports.{Context}
use url_shortner.Postgres.{Pool, Answer, refused, other}
use url_shortner.Config.{
  Env, load, load_storage, load_database_url, load_base_url, load_cache, load_redis_url,
  load_positive_duration, positive_duration, trim_right_slashes,
}
use url_shortner.Server.{PostgresPool, build_storage, build_link_resolver}
use url_shortner.Server.Process.{
  signalled, HttpServer, Outside, run, with_config, with_signals, with_storage, serve, woken,
  after_shutdown,
}
use url_shortner.Server.Process.Outcome.{Succeeds, run_ok_iff}
use url_shortner.Server.Process.Held.{HoldsLaws}
use url_shortner.Server.Process.Release.{held-run}
use url_shortner.Tests.Wiring.{base, durations}

-- The state of the process: how many things it holds.
abbrev Host : Type 0
Host = ℕ

abbrev postgres_env : Env
postgres_env name =
    if text_eq name (codes "TINYURL_STORAGE")
    then codes "postgres"
    else if text_eq name (codes "TINYURL_DATABASE_URL")
    then codes "db"
    else []

abbrev cut_off {ℓ} : {A : Type ℓ} → Answer A
cut_off = refused (other 9)

abbrev lost : Pool Host
lost = record {
  insert_link = λ ctx row s. (cut_off, s);
  update_link = λ ctx row s. (cut_off, s);
  select_link = λ ctx code s. (cut_off, s);
  select_exists = λ ctx code s. (cut_off, s);
  select_key = λ ctx owner key s. (cut_off, s);
  insert_key = λ ctx owner key code at s. (cut_off, s);
  insert_event = λ ctx event s. (cut_off, s);
}

abbrev opened : PostgresPool Host
opened = record { pool = lost; ping = λ ctx. pure tt; close = λ s. s - 1 }

-- A signal comes, and the server shuts down in time.
abbrev patient : HttpServer Host
patient = record {
  wait = λ s. (signalled, s);
  shutdown = λ d s. (none, s);
  close = λ s. (none, s);
  server_error = λ s. (none, s);
}

-- A signal comes, a handler hangs, and the listener does not close either.
abbrev stuck : HttpServer Host
stuck = record patient {
  shutdown = λ d s. (some (foreign 80), s);
  close = λ s. (some (foreign 81), s);
}

abbrev outside : HttpServer Host → Outside Host
outside server = record {
  env = postgres_env;
  lib = base;
  parse_duration = durations;
  notify = λ s. (none, s + 1);
  stop = λ s. s - 1;
  open_pool = λ ctx url s. (ok opened, s + 1);
  same = λ a b. false;
  memory = record {
    links = record { view = λ s. []; put = λ t s. s };
    records = record { view = λ s. []; put = λ t s. s };
    events = record { view = λ s. []; put = λ t s. s };
  };
  with_timeout = λ ctx d. ctx;
  parse_url = λ url. err (foreign 72);
  generator = record { generate = λ ctx s. (ok (48 ∷ []), s) };
  clock = record { now = λ s. (5, s) };
  cache_metrics = record {
    record_cache_get = λ r s. s;
    record_source_lookup = λ r s. s;
    record_cache_put = λ r s. s;
  };
  metrics = record { record_redirect = λ r s. s; record_analytics = λ r s. s };
  listen = λ cfg patterns services. server;
}

graceful-run : run (outside patient) 0 ≡ (ok tt, 0)
unfolding run with_config with_signals with_storage serve woken after_shutdown load load_storage
    load_database_url load_base_url load_cache load_redis_url load_positive_duration
    positive_duration trim_right_slashes text_eq is_empty trim_space trim_left trim_right is_space
    to_lower to_lower_rune build_storage build_link_resolver
graceful-run = refl

stuck-run : run (outside stuck) 0 ≡ (err (joined (wrapped (foreign 80)) (wrapped (foreign 81))), 0)
unfolding run with_config with_signals with_storage serve woken after_shutdown load load_storage
    load_database_url load_base_url load_cache load_redis_url load_positive_duration
    positive_duration trim_right_slashes text_eq is_empty trim_space trim_left trim_right is_space
    to_lower to_lower_rune build_storage build_link_resolver
stuck-run = refl

run_ok_iff_example : ((run (outside patient) 0).0 ≡ ok tt) ↔ Succeeds (outside patient) 0
run_ok_iff_example = run_ok_iff (outside patient) 0

outside_laws : HoldsLaws (outside patient) (λ (s : Host). s)
outside_laws = record {
  notify_held = λ s. refl;
  stop_held = λ s. refl;
  open_err = λ ctx url s e h. absurd (ground arith);
  open_ok = λ ctx url s p h.
      let same : opened ≡ p = ground arith in
      (
        refl,
        subst (λ (q : PostgresPool Host). (c : Context) (t : Host) → (q.ping c t).1 ≡ t) same
            λ c t. refl,
        subst (λ (q : PostgresPool Host). (t : Host) → q.close t ≡ t - 1) same λ t. refl,
      );
  client_held = λ url c h. absurd (ground arith);
  wait_held = λ cfg d s. refl;
  shutdown_held = λ cfg d t s. refl;
  close_held = λ cfg d s. refl;
  error_held = λ cfg d s. refl;
}

held-run_example : (run (outside patient) 0).1 ≡ 0
held-run_example = held-run (outside patient) (λ s. s) outside_laws 0
