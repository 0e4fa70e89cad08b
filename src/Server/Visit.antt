-- ===== src/Server/Visit.antt =====
-- A visit to the server that is built with its stores in memory and no cache.
use mathlib.Core.Path.{subst, sym}
use url_shortner.Prelude.{◌≡◌, refl, true, false, Option, none, some, [], ◌∷◌, arith}
use url_shortner.Text.{Text, codes, text_eq, is_empty}
use url_shortner.Time.{Time, is_zero}
use url_shortner.Errors.{Result, ok}
use url_shortner.Io.{Io}
use url_shortner.Net.{UrlLib}
use url_shortner.Domain.Mapping.Agreement.{Before}
use url_shortner.Ports.{Context, Clock, CodeGenerator}
use url_shortner.Ports.Laws.{ClockLaws, GeneratorLaws, StoreLaws}
use url_shortner.Memory.Idempotency.{SameLink}
use url_shortner.Memory.Idempotency.Records.{SoundSame}
use url_shortner.Application.Cache.{RedirectCacheMetrics, WithTimeout, repository_resolve}
use url_shortner.Config.{Config, storage_memory, cache_none}
use url_shortner.Http.{is_code_path}
use url_shortner.Http.Handler.{
  CreateBody, HttpRequest, MetricsRecorder, Handler, created, found, new_handler, with_analytics,
  with_metrics, serve_http,
}
use url_shortner.Http.Handler.Visit.{serve_http_visit}
use url_shortner.Server.{
  Memory, PostgresPool, RedisClient, StorageDependencies, ResolverDependencies, memory_storage,
  source, build_storage, build_link_resolver, build_services,
}
use url_shortner.Server.InMemory.{
  MemoryLaws, table, memory_storage-RepositoryLaws, memory_storage-FindsStored,
  memory_storage-StoreLaws,
}

module _ {S : Type 0} (lib : UrlLib) (split_host_port : Text → Option Text) (same : SameLink)
    (sound : SoundSame same) (memory : Memory S) (laws : MemoryLaws memory)
    (open_pool : Context → Text → Io S (PostgresPool S)) (with_timeout : WithTimeout)
    (parse_url : Text → Result (RedisClient S)) (clock : Clock S) (generator : CodeGenerator S)
    (clock_laws : ClockLaws (table same memory laws) clock)
    (generator_laws : GeneratorLaws (table same memory laws) generator)
    (cache_metrics : RedirectCacheMetrics S) (metrics : MetricsRecorder S) where
  -- The handler for links of the server that is built of these parts.
  abbrev pub handler_of : Config → StorageDependencies S → ResolverDependencies S → Handler S
  handler_of cfg storage resolver =
      (build_services cfg storage resolver generator clock metrics).link_handler

  -- The time at which a visit reads the clock.
  abbrev pub visited_at : StorageDependencies S → Text → S → Time
  visited_at storage code s = (clock.now (repository_resolve storage.repository none code s).1).0

  abbrev direct : ResolverDependencies S
  direct = record {
    resolver = source lib with_timeout (memory_storage same memory).repository clock cache_metrics;
    repository = (memory_storage same memory).repository;
    diagnostics = [];
    cleanup = λ s. s;
  }

  in_memory :
      (cfg : Config) (storage : StorageDependencies S) (s : S)
      → text_eq cfg.storage storage_memory ≡ true
      → (build_storage lib open_pool same memory none cfg s).0 ≡ ok storage
      → memory_storage same memory ≡ storage
  unfolding build_storage
  in_memory cfg storage s kept built = ground arith

  uncached :
      (cfg : Config) (resolver : ResolverDependencies S) (s : S)
      → text_eq cfg.cache cache_none ≡ true
      → (build_link_resolver lib with_timeout
          (memory_storage same memory).repository
          clock
          cache_metrics
          parse_url
          cfg
          s).0
        ≡ ok resolver
      → direct ≡ resolver
  unfolding build_link_resolver
  uncached cfg resolver s plain built = ground arith

  memory_visit :
      (cfg : Config) (ctx : Context) (r visit : HttpRequest) (body : CreateBody) (s s' : S)
      (code url destination : Text)
      → (let h = handler_of cfg (memory_storage same memory) direct in
          serve_http h lib split_host_port ctx r s ≡ (created code url destination, s'))
      → r.body ≡ some body
      → is_empty r.idempotency_key ≡ true
      → visit.method ≡ codes "GET"
      → visit.path ≡ b'/' ∷ code
      → is_code_path visit.path ≡ true
      → is_zero (visited_at (memory_storage same memory) code s') ≡ false
      → Before body.expires_at (visited_at (memory_storage same memory) code s')
      → (serve_http
          (handler_of cfg (memory_storage same memory) direct)
          lib
          split_host_port
          none
          visit
          s').0
        ≡ found destination
  unfolding build_services new_handler with_analytics with_metrics
  memory_visit cfg ctx r visit body s s' code url destination answer asked keyless get at named
        there early =
      serve_http_visit (handler_of cfg (memory_storage same memory) direct) lib split_host_port
        (memory_storage-RepositoryLaws same memory laws)
        (memory_storage-FindsStored same memory laws) clock_laws generator_laws
        (λ store e.
          subst (StoreLaws (table same memory laws)) (ground arith)
            (memory_storage-StoreLaws same memory laws sound))
        refl refl ctx r visit body s s' code url destination answer asked keyless get at named there
        early

  -- A server that is built with its stores in memory and no cache keeps what a 201 promises: to a
  -- request without an idempotency key, the 201 shows a code of which a live GET, in the state that
  -- the creation leaves, is answered by a 302 to the destination that the 201 shows, if the code can
  -- stand in a path and the clock reading is not the zero time and comes before the expiration that
  -- was asked for.
  pub server_visit :
      (cfg : Config) (storage : StorageDependencies S) (resolver : ResolverDependencies S)
      (start : S) (ctx : Context) (r visit : HttpRequest) (body : CreateBody) (s s' : S)
      (code url destination : Text)
      → text_eq cfg.storage storage_memory ≡ true
      → text_eq cfg.cache cache_none ≡ true
      → (build_storage lib open_pool same memory none cfg start).0 ≡ ok storage
      → (build_link_resolver lib with_timeout storage.repository clock cache_metrics parse_url cfg
          start).0
        ≡ ok resolver
      → serve_http (handler_of cfg storage resolver) lib split_host_port ctx r s
        ≡ (created code url destination, s')
      → r.body ≡ some body
      → is_empty r.idempotency_key ≡ true
      → visit.method ≡ codes "GET"
      → visit.path ≡ b'/' ∷ code
      → is_code_path visit.path ≡ true
      → is_zero (visited_at storage code s') ≡ false
      → Before body.expires_at (visited_at storage code s')
      → (serve_http (handler_of cfg storage resolver) lib split_host_port none visit s').0
        ≡ found destination
  server_visit cfg storage resolver start ctx r visit body s s' code url destination kept plain
        stored built answer asked keyless get at named there early =
      let stores = in_memory cfg storage start kept stored in
      let links = uncached cfg resolver start plain (
        subst
          (λ (d : StorageDependencies S).
            (build_link_resolver lib with_timeout d.repository clock cache_metrics parse_url cfg
              start).0
            ≡ ok resolver)
          (sym stores) built) in
      let Visit = λ (d : StorageDependencies S) (e : ResolverDependencies S).
        serve_http (handler_of cfg d e) lib split_host_port ctx r s
          ≡ (created code url destination, s')
        → is_zero (visited_at d code s') ≡ false
        → Before body.expires_at (visited_at d code s')
        → (serve_http (handler_of cfg d e) lib split_host_port none visit s').0
          ≡ found destination in
      let direct_visit : Visit (memory_storage same memory) direct = λ answer there early.
        memory_visit cfg ctx r visit body s s' code url destination answer asked keyless get at
          named there early in
      subst (Visit storage) links
        (subst (λ (d : StorageDependencies S). Visit d direct) stores direct_visit) answer there
        early
