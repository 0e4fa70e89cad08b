-- ===== src/Server/Loaded.antt =====
-- The server that is built of a loaded configuration.
use url_shortner.Prelude.{◌≡◌, ◌⊎◌, inl, inr, refl, true, ◌||◌, Option, some, arith}
use url_shortner.Text.{Text, text_eq}
use url_shortner.Time.{Duration}
use url_shortner.Errors.{Error, Result, ok, err, wrapped, Result-cases}
use url_shortner.Io.{Io}
use url_shortner.Net.{UrlLib}
use url_shortner.Ports.{Context, Clock, LinkRepository, LinkResolver, RedirectCache}
use url_shortner.Memory.Idempotency.{SameLink}
use url_shortner.Application.Cache.{
  RedirectCacheMetrics, RedirectCacheConfig, CacheAsideResolver, RedirectCacheRefresher,
  new_redirect_cache_refresher, WithTimeout, new_cache_aside_resolver,
  validate_redirect_cache_config,
}
use url_shortner.Config.{
  Env, Config, storage_memory, storage_postgres, cache_none, cache_redis, refuse_if, load_storage,
  load_cache, load,
}
use url_shortner.Config.Loaded.{cache_config, load_ok}
use url_shortner.Server.{
  source, redirect_cache, Memory, PostgresPool, RedisClient, ResolverDependencies, build_storage,
  build_link_resolver, redis_resolver,
}

module _ (env : Env) (lib : UrlLib) (parse_duration : Text → Option Duration) where
  load_storage_ok :
      (storage : Text)
      → load_storage env lib parse_duration ≡ ok storage
      → text_eq storage storage_memory || text_eq storage storage_postgres ≡ true
  unfolding load_storage refuse_if
  load_storage_ok storage h = ground arith

  load_cache_ok :
      (cache : Text)
      → load_cache env lib parse_duration ≡ ok cache
      → text_eq cache cache_none || text_eq cache cache_redis ≡ true
  unfolding load_cache refuse_if
  load_cache_ok cache h = ground arith

  load_modes :
      (c : Config)
      → load env lib parse_duration ≡ ok c
      → (text_eq c.storage storage_memory || text_eq c.storage storage_postgres ≡ true)
        × (text_eq c.cache cache_none || text_eq c.cache cache_redis ≡ true)
  unfolding load
  load_modes c h =
      (ground (arith, load_storage_ok c.storage), ground (arith, load_cache_ok c.cache))

  module _ {S : Type 0} (with_timeout : WithTimeout) (repository : LinkRepository S)
      (clock : Clock S) (metrics : RedirectCacheMetrics S)
      (parse_url : Text → Result (RedisClient S)) where
    abbrev resolver_of : Config → Io S (ResolverDependencies S)
    resolver_of = build_link_resolver lib with_timeout repository clock metrics parse_url

    made :
        (cache : RedirectCache S) (from : LinkResolver S) (config : RedirectCacheConfig)
        → validate_redirect_cache_config config ≡ ok tt
        → (r : CacheAsideResolver S) × (new_cache_aside_resolver cache from clock config
              (some metrics)
            ≡ ok r)
    unfolding new_cache_aside_resolver
    made cache from config valid = (
      record {
        cache = cache;
        source = from;
        clock = clock;
        config = config;
        metrics = some metrics;
      },
      rw (valid, new_cache_aside_resolver) refl,
    )

    refreshed :
        (cache : RedirectCache S) (config : RedirectCacheConfig)
        → validate_redirect_cache_config config ≡ ok tt
        → (r : RedirectCacheRefresher S) × (new_redirect_cache_refresher cache clock config ≡ ok r)
    unfolding new_redirect_cache_refresher
    refreshed cache config valid = (
      record {
        cache = cache;
        clock = clock;
        operation_timeout = config.operation_timeout;
        active_ttl = config.active_ttl;
        inactive_ttl = config.inactive_ttl;
      },
      rw (valid, new_redirect_cache_refresher) refl,
    )

    redis_resolver_ok :
        (client : RedisClient S) (config : RedirectCacheConfig) (e : Error)
        → validate_redirect_cache_config config ≡ ok tt
        → redis_resolver lib with_timeout repository clock metrics client config ≡ err e
        → ⊥
    unfolding redis_resolver
    redis_resolver_ok client config e valid h =
        let (r, new) =
          made (redirect_cache lib client) (source lib with_timeout repository clock metrics) config
            valid in
        let (f, fresh) = refreshed (redirect_cache lib client) config valid in
        ground (arith, new, fresh)

    -- With a loaded configuration, no link resolver is built only if the cache is Redis and its URL does
    -- not parse.
    pub build_link_resolver_err :
        (c : Config) (s : S) (e : Error)
        → load env lib parse_duration ≡ ok c
        → (resolver_of c s).0 ≡ err e
        → (text_eq c.cache cache_redis ≡ true)
          × ((f : Error) × (parse_url c.redis_url ≡ err f) × (e ≡ wrapped f))
    unfolding build_link_resolver
    build_link_resolver_err c s e loaded failed = elim (Result-cases (parse_url c.redis_url)) [
      | inr (f, unparsed) ↦
          let modes = (load_modes c loaded).1 in
          (ground (arith, modes), (f, unparsed, ground (arith, modes, unparsed)))
      | inl (client, parsed) ↦
          let modes = (load_modes c loaded).1 in
          let valid = (load_ok env lib parse_duration c loaded).0 in
          absurd (ground (arith, modes, parsed, redis_resolver_ok client (cache_config c) e valid))
    ]

  module _ {S : Type 0} (same : SameLink) (memory : Memory S)
      (open_pool : Context → Text → Io S (PostgresPool S)) where
    -- With a loaded configuration, no storage is built only if it is PostgreSQL and the pool does not
    -- open or does not answer the first ping.
    pub build_storage_err :
        (ctx : Context) (c : Config) (s : S) (e : Error)
        → load env lib parse_duration ≡ ok c
        → (build_storage lib open_pool same memory ctx c s).0 ≡ err e
        → (text_eq c.storage storage_postgres ≡ true)
          × (f : Error) × (e ≡ wrapped f)
          × (let (pool, s') = open_pool ctx c.database_url s in
              (pool ≡ err f) ⊎ ((p : PostgresPool S) × (pool ≡ ok p) × ((p.ping ctx s').0 ≡ err f)))
    unfolding build_storage
    build_storage_err ctx c s e loaded failed =
        let modes = (load_modes c loaded).0 in
        elim (Result-cases (open_pool ctx c.database_url s).0) [
          | inr (f, closed) ↦ (ground (arith, modes), f, ground (arith, modes, closed), inl closed)
          | inl (p, opened) ↦
              elim (Result-cases (p.ping ctx (open_pool ctx c.database_url s).1).0) [
                | inr (f, dead) ↦ (
                  ground (arith, modes),
                  f,
                  ground (arith, modes, opened, dead),
                  inr (p, opened, dead),
                )
                | inl (done, live) ↦ absurd (ground (arith, modes, opened, live))
              ]
        ]
