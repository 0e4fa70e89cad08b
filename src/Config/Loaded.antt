-- ===== src/Config/Loaded.antt =====
-- What a configuration that Load returns is good for.
use url_shortner.Prelude.{◌≡◌, ◌&&◌, false, Option, arith}
use url_shortner.Text.{Text, codes, is_empty, text_eq}
use url_shortner.Time.{Duration}
use url_shortner.Errors.{ok}
use url_shortner.Net.{UrlLib}
use url_shortner.Application.Cache.{RedirectCacheConfig, validate_redirect_cache_config}
use url_shortner.Application.Cache.Ttl.{Positive, validate_redirect_cache_config_iff}
use url_shortner.Config.{
  or_default, entry, Env, Config, storage_postgres, cache_redis, positive_duration,
  load_positive_duration, load_database_url, load_redis_url, load, refuse_if,
}

-- The cache configuration that the server makes of a configuration.
abbrev pub cache_config : Config → RedirectCacheConfig
cache_config c = record {
  operation_timeout = c.cache_operation_timeout;
  active_ttl = c.cache_active_ttl;
  inactive_ttl = c.cache_inactive_ttl;
}

module _ (env : Env) (lib : UrlLib) (parse_duration : Text → Option Duration) where
  positive_duration_ok :
      (raw : Text) (d : Duration) → positive_duration env lib parse_duration raw ≡ ok d → Positive d
  unfolding positive_duration refuse_if
  positive_duration_ok raw d h = ground arith

  load_positive_duration_ok :
      (name value : Text) (d : Duration)
      → load_positive_duration env lib parse_duration name value ≡ ok d
      → Positive d
  unfolding load_positive_duration
  load_positive_duration_ok name value d h = positive_duration_ok _ d h

  load_database_url_ok :
      (storage url : Text)
      → load_database_url env lib parse_duration storage ≡ ok url
      → (text_eq storage storage_postgres && is_empty url) ≡ false
  unfolding load_database_url refuse_if
  load_database_url_ok storage url h = ground arith

  load_redis_url_ok :
      (cache url : Text)
      → load_redis_url env lib parse_duration cache ≡ ok url
      → (text_eq cache cache_redis && is_empty url) ≡ false
  unfolding load_redis_url refuse_if
  load_redis_url_ok cache url h = ground arith

  -- A configuration that Load returns passes the check of the cache's constructors, has a positive
  -- shutdown timeout, a database URL with PostgreSQL storage and a Redis URL with a Redis cache.
  pub load_ok :
      (c : Config)
      → load env lib parse_duration ≡ ok c
      → (validate_redirect_cache_config (cache_config c) ≡ ok tt)
        × Positive c.shutdown_timeout
        × ((text_eq c.storage storage_postgres && is_empty c.database_url) ≡ false)
        × ((text_eq c.cache cache_redis && is_empty c.redis_url) ≡ false)
  unfolding load
  load_ok c h =
      let live = λ (name value : Text) (d : Duration). load_positive_duration_ok name value d in
      let timeout : Positive c.cache_operation_timeout = ground (
        arith,
        live (codes "TINYURL_CACHE_OPERATION_TIMEOUT") (codes "25ms") c.cache_operation_timeout,
      ) in
      let active : Positive c.cache_active_ttl =
        ground (arith, live (codes "TINYURL_CACHE_ACTIVE_TTL") (codes "60s") c.cache_active_ttl) in
      let inactive : Positive c.cache_inactive_ttl =
        ground
          (arith, live (codes "TINYURL_CACHE_INACTIVE_TTL") (codes "30s") c.cache_inactive_ttl) in
      (
        (validate_redirect_cache_config_iff (cache_config c)).1 (timeout, active, inactive),
        ground (
          arith,
          positive_duration_ok
              (or_default (codes "10s")
                (entry env lib parse_duration (codes "TINYURL_SHUTDOWN_TIMEOUT")))
              c.shutdown_timeout,
        ),
        ground (arith, load_database_url_ok c.storage c.database_url),
        ground (arith, load_redis_url_ok c.cache c.redis_url),
      )
