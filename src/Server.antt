-- ===== src/Server.antt =====
-- cmd/linkd/main.go: the parts that the server is built of, for a configuration. PostgreSQL and Redis
-- are reached through parameters; the stores in memory are parts of the state of the process.
pub mod Loaded
pub mod InMemory
pub mod Visit
pub mod Process
use url_shortner.Prelude.{
  ℕ, Bool, true, false, Option, none, some, List, [], ◌∷◌, ◌++◌, if◌then◌else◌,
}
use url_shortner.Text.{Text, codes, text_eq}
use url_shortner.Io.{Io, pure, raise}
use url_shortner.Net.{UrlLib}
use url_shortner.Ports.{
  CodeGenerator, Context, Clock, LinkRepository, LinkResolver, IdempotencyStore, RedirectCache,
}
use url_shortner.Analytics.{Events, RedirectEventRecorder, append_event}
use url_shortner.Memory.Repository.{Links}
use url_shortner.Memory.Repository as Repository
use url_shortner.Memory.Idempotency.{Records, SameLink, get_record, save_record}
use url_shortner.Postgres.{Pool}
use url_shortner.Postgres.Repository as Stored
use url_shortner.Postgres.Store as Store
use url_shortner.Redis.{Fields, Commands, Eval, put_if_newer}
use url_shortner.Redis.Decode
use url_shortner.Errors.{Error, Result, ok, err, foreign, wrapped, ◌>>=◌, wrap}
use url_shortner.Application.Cache.{
  RedirectCacheMetrics, RedirectCacheConfig, CacheAsideResolver, WithTimeout,
  new_cache_aside_resolver, new_redirect_cache_refresher, resolve, repository_resolve, refresh,
  cache_refreshing_repository,
}
use url_shortner.Http.Handler.{Handler, MetricsRecorder, new_handler, with_analytics, with_metrics}
use url_shortner.Health.{Checker, ComponentCheck}
use url_shortner.Config.{Config, storage_memory, storage_postgres, cache_none, cache_redis}
use url_shortner.Config.Loaded.{cache_config}

-- A part of a state.
pub record Part (S T : Type 0) : Type 0 where
  pub view : S → T
  pub put : T → S → S

abbrev pub on_part : {S T A : Type 0} → Part S T → Io T A → Io S A
on_part part m s = let (r, t) = m (part.view s) in (r, part.put t s)

-- The stores that the process keeps in memory.
pub record Memory (S : Type 0) : Type 0 where
  pub links : Part S Links
  pub records : Part S Records
  pub events : Part S Events

-- A connection pool of PostgreSQL, and a client of Redis.
pub record PostgresPool (S : Type 0) : Type 0 where
  pub pool : Pool S
  pub ping : Checker S
  pub close : S → S

pub record RedisClient (S : Type 0) : Type 0 where
  pub commands : Commands S
  pub eval : Eval S
  pub hget_all : Context → Text → Io S Fields
  pub ping : Checker S
  pub close : S → S

pub record StorageDependencies (S : Type 0) : Type 0 where
  pub repository : LinkRepository S
  pub idempotency_store : IdempotencyStore S
  pub analytics_recorder : RedirectEventRecorder S
  pub readiness_checker : Checker S
  pub diagnostics : List (ComponentCheck S)
  pub cleanup : S → S

pub record ResolverDependencies (S : Type 0) : Type 0 where
  pub resolver : LinkResolver S
  pub repository : LinkRepository S
  pub diagnostics : List (ComponentCheck S)
  pub cleanup : S → S

module _ {S : Type 0} where
  -- `func(context.Context) error { return nil }`
  abbrev pub memory_checker : Checker S
  memory_checker ctx = pure tt

  module _ (same : SameLink) (memory : Memory S) where
    -- The dependencies of the case StorageMemory.
    unfoldable pub memory_storage : StorageDependencies S
    unfolding append_event
    memory_storage = record {
      repository = record {
        insert = λ ctx l. on_part memory.links (Repository.insert ctx l);
        find_by_code = λ ctx code. on_part memory.links (Repository.find_by_code ctx code);
        update = λ ctx l expected. on_part memory.links (Repository.update ctx l expected);
      };
      idempotency_store = record {
        get = λ ctx owner key. on_part memory.records (get_record ctx owner key);
        save = λ ctx owner key l. on_part memory.records (save_record same ctx owner key l);
      };
      analytics_recorder = record {
        record_event = λ ctx event. on_part memory.events (append_event ctx event);
      };
      readiness_checker = memory_checker;
      diagnostics =
          record { name = codes "memory"; required = true; checker = some memory_checker } ∷ [];
      cleanup = λ s. s;
    }

  -- The dependencies of the case StoragePostgres.
  unfoldable pub postgres_storage : UrlLib → PostgresPool S → StorageDependencies S
  postgres_storage lib p = record {
    repository = Stored.repository p.pool lib;
    idempotency_store = Store.store p.pool lib;
    analytics_recorder = Store.event_recorder p.pool lib;
    readiness_checker = p.ping;
    diagnostics = record { name = codes "postgres"; required = true; checker = some p.ping } ∷ [];
    cleanup = p.close;
  }

  abbrev pub pinged : UrlLib → PostgresPool S → Result (Unit {0}) → Io S (StorageDependencies S)
  pinged lib p (err e) s = (err (wrapped e), p.close s)
  pinged lib p (ok live) s = (ok (postgres_storage lib p), s)

  abbrev pub opened : UrlLib → Context → Result (PostgresPool S) → Io S (StorageDependencies S)
  opened lib ctx (err e) s = (err (wrapped e), s)
  opened lib ctx (ok p) s = let (answer, s') = p.ping ctx s in pinged lib p answer s'

  module _ (lib : UrlLib) (open_pool : Context → Text → Io S (PostgresPool S)) (same : SameLink)
      (memory : Memory S) where
    unfoldable pub build_storage : Context → Config → Io S (StorageDependencies S)
    unfolding memory_storage postgres_storage
    build_storage ctx cfg s =
        if text_eq cfg.storage storage_memory
        then (ok (memory_storage same memory), s)
        else if text_eq cfg.storage storage_postgres
        then (let (pool, s') = open_pool ctx cfg.database_url s in opened lib ctx pool s')
        else (err (foreign 60), s)

  -- linkredis.NewRedirectCache
  abbrev pub redirect_cache : UrlLib → RedisClient S → RedirectCache S
  redirect_cache lib client = record {
    get = Decode.get lib client.hget_all;
    put_if_newer = put_if_newer client.commands client.eval;
  }

  module _ (lib : UrlLib) (with_timeout : WithTimeout) (repository : LinkRepository S)
      (clock : Clock S) (metrics : RedirectCacheMetrics S) where
    abbrev pub source : LinkResolver S
    source = record { resolve = repository_resolve repository }

    -- The case CacheRedis, with a client.
    unfoldable pub redis_resolver :
        RedisClient S → RedirectCacheConfig → Result (ResolverDependencies S)
    redis_resolver client config =
        let cache = redirect_cache lib client in
        wrap (new_cache_aside_resolver cache source clock config (some metrics)) >>= λ resolver.
        wrap (new_redirect_cache_refresher cache clock config) >>= λ refresher. ok (record {
          resolver = record { resolve = resolve with_timeout resolver };
          repository = cache_refreshing_repository repository (refresh with_timeout refresher);
          diagnostics =
              record { name = codes "redis"; required = false; checker = some client.ping } ∷ [];
          cleanup = client.close;
        })

    -- A client is closed when no resolver is made for it.
    abbrev pub closed :
        RedisClient S → Result (ResolverDependencies S) → Io S (ResolverDependencies S)
    closed client (err e) s = (err e, client.close s)
    closed client (ok dependencies) s = (ok dependencies, s)

    abbrev pub with_client :
        Result (RedisClient S) → RedirectCacheConfig → Io S (ResolverDependencies S)
    with_client (err e) config s = (err (wrapped e), s)
    with_client (ok client) config s = closed client (redis_resolver client config) s

    -- The first argument parses a URL of Redis and makes a client for it.
    unfoldable pub build_link_resolver :
        (Text → Result (RedisClient S)) → Config → Io S (ResolverDependencies S)
    unfolding redis_resolver
    build_link_resolver parse_url cfg s =
        if text_eq cfg.cache cache_none
        then (let direct : ResolverDependencies S = record {
          resolver = source;
          repository = repository;
          diagnostics = [];
          cleanup = λ t. t;
        } in
            (ok direct, s))
        else if text_eq cfg.cache cache_redis
        then with_client (parse_url cfg.redis_url) (cache_config cfg) s
        else (err (foreign 61), s)

-- The handlers that run() registers, over what the two functions above have built. The management
-- handler is made of its repository and clock, and that of the health checks of its checkers.
pub record Services (S : Type 0) : Type 0 where
  pub link_handler : Handler S
  pub management_repository : LinkRepository S
  pub management_clock : Clock S
  pub readiness : Checker S
  pub diagnostics : List (ComponentCheck S)
  pub diagnostics_token : Text

module _ {S : Type 0} where
  unfoldable pub build_services :
      Config
      → StorageDependencies S
      → ResolverDependencies S
      → CodeGenerator S
      → Clock S
      → MetricsRecorder S
      → Services S
  unfolding new_handler with_analytics with_metrics
  build_services cfg storage resolver generator clock metrics = record {
    link_handler =
        new_handler
          (record {
            repository = resolver.repository;
            generator = generator;
            clock = clock;
            idempotency_store = some storage.idempotency_store;
          })
          resolver.resolver clock cfg.base_url
          (with_analytics storage.analytics_recorder clock ∷ with_metrics metrics ∷ []);
    management_repository = resolver.repository;
    management_clock = clock;
    readiness = storage.readiness_checker;
    diagnostics = storage.diagnostics ++ resolver.diagnostics;
    diagnostics_token = cfg.diagnostics_token;
  }
