-- ===== src/Tests/EndToEnd.antt =====
-- An example on the whole server with its stores in memory: a creation and a visit.
use url_shortner.Prelude.{◌≡◌, refl, false, none, some, [], arith}
use url_shortner.Prelude.Int.{pos}
use url_shortner.Prelude.Maps
use url_shortner.Text.{
  Text, codes, trim_space, trim_left, trim_right, is_space, is_empty, text_eq, to_lower,
  to_lower_rune,
}
use url_shortner.Time.{is_zero, zero_time}
use url_shortner.Errors.{Result, err, foreign, is}
use url_shortner.Io.{Io, raise}
use url_shortner.Domain.Destination.{new_destination_url}
use url_shortner.Domain.Destination
use url_shortner.Domain.Link.{new_link, expires_too_early}
use url_shortner.Ports.{Context}
use url_shortner.Memory.Idempotency.{SameLink}
use url_shortner.Memory.Idempotency.Records.{SoundSame}
use url_shortner.Memory.Repository.{find_by_code}
use url_shortner.Memory.Repository
use url_shortner.Application.Cache.{RedirectCacheMetrics, repository_resolve}
use url_shortner.Application.Creation.{
  replay_outcome, or_fresh, create_fresh, active_store, creation_time, inserted, replayed, round,
  rounds, saved, create_generated_link,
}
use url_shortner.Config.{Config}
use url_shortner.Http.{is_code_path}
use url_shortner.Http.Handler.{
  HttpRequest, HttpResponse, MetricsRecorder, created, found, created_response, create_from,
  handle_create_link, serve_http, new_handler, with_analytics, with_metrics,
}
use url_shortner.Server.{
  Memory, PostgresPool, RedisClient, StorageDependencies, ResolverDependencies, memory_storage,
  source, build_storage, build_link_resolver, build_services,
}
use url_shortner.Server.InMemory.{MemoryLaws}
use url_shortner.Server.Visit.{server_visit}
use url_shortner.Tests.World.{site, lib, World, world, clock, generator}

abbrev memory : Memory World
memory = record {
  links = record { view = λ w. w.links; put = λ t w. record w { links = t } };
  records = record { view = λ w. w.records; put = λ t w. record w { records = t } };
  events = record { view = λ w. []; put = λ t w. w };
}

memory_laws : MemoryLaws memory
memory_laws = record {
  links_put = λ t w. refl;
  records_put = λ t w. refl;
  records_view = λ w. refl;
  records_apart = λ t w. refl;
}

abbrev never : SameLink
never a b = false

never_sound : SoundSame never
never_sound a b h = absurd (ground arith)

abbrev cache_metrics : RedirectCacheMetrics World
cache_metrics = record {
  record_cache_get = λ r w. w;
  record_source_lookup = λ r w. w;
  record_cache_put = λ r w. w;
}

abbrev metrics : MetricsRecorder World
metrics = record { record_redirect = λ r w. w; record_analytics = λ r w. w }

abbrev no_pool : Context → Text → Io World (PostgresPool World)
no_pool ctx url = raise (foreign 71)

abbrev no_client : Text → Result (RedisClient World)
no_client url = err (foreign 72)

abbrev cfg : Config
cfg = record {
  storage = codes "memory";
  database_url = [];
  cache = codes "none";
  redis_url = [];
  cache_operation_timeout = pos 25_000_000;
  cache_active_ttl = pos 25_000_000;
  cache_inactive_ttl = pos 25_000_000;
  addr = codes ":8080";
  base_url = codes "http://t";
  shutdown_timeout = pos 25_000_000;
  diagnostics_token = [];
}

abbrev storage : StorageDependencies World
storage = memory_storage never memory

abbrev resolver : ResolverDependencies World
resolver = record {
  resolver = source lib (λ ctx d. ctx) storage.repository clock cache_metrics;
  repository = storage.repository;
  diagnostics = [];
  cleanup = λ w. w;
}

abbrev served : HttpRequest → World → HttpResponse × World
served =
    serve_http (build_services cfg storage resolver generator clock metrics).link_handler lib
      (λ t. none) none

abbrev creation : HttpRequest
creation = record {
  method = codes "POST";
  path = codes "/v1/links";
  body = some (record { destination = site; owner_id = codes "ann"; expires_at = none });
  idempotency_key = [];
  user_agent = [];
  referer = [];
  forwarded_for = [];
  remote_addr = [];
}

abbrev visit : HttpRequest
visit = record creation { method = codes "GET"; path = codes "/1"; body = none }

creation_answer :
    served creation world
    ≡ (created (codes "1") (codes "http://t/1") site, (served creation world).1)
unfolding memory_storage build_services new_handler with_analytics with_metrics serve_http
    handle_create_link create_from created_response create_generated_link is_empty replay_outcome
    or_fresh create_fresh new_destination_url trim_space trim_right trim_left is_space text_eq
    to_lower to_lower_rune new_link Destination.is_zero active_store creation_time inserted replayed
    round rounds saved expires_too_early is_zero zero_time Repository.insert is Maps.lookup
creation_answer = refl

server_visit_example : (served visit (served creation world).1).0 ≡ found site
unfolding memory_storage build_services new_handler with_analytics with_metrics serve_http
    handle_create_link create_from created_response create_generated_link is_empty replay_outcome
    or_fresh create_fresh new_destination_url trim_space trim_right trim_left is_space text_eq
    to_lower to_lower_rune new_link Destination.is_zero active_store creation_time inserted replayed
    round rounds saved expires_too_early is_zero zero_time Repository.insert is Maps.lookup
    Maps.insert repository_resolve find_by_code is_code_path build_storage build_link_resolver
server_visit_example =
    server_visit lib (λ t. none) never never_sound memory memory_laws no_pool (λ ctx d. ctx)
      no_client clock generator (record { now_keeps = λ w. refl })
      (record { generate_keeps = λ ctx w. refl }) cache_metrics metrics cfg storage resolver world
      none creation visit (record { destination = site; owner_id = codes "ann"; expires_at = none })
      world (served creation world).1 (codes "1") (codes "http://t/1") site refl refl refl refl
      creation_answer refl refl refl refl refl refl tt
