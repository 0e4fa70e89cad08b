-- ===== src/Application/Cache.antt =====
-- internal/link/application: cache_aside_resolver.go, redirect_cache_refresher.go,
-- cache_refreshing_repository.go and repository_resolver.go. The durations that the metrics record
-- are left to the implementation of the metrics interface.
pub mod Ttl
pub mod Transparency
use url_shortner.Prelude.{ℕ, Bool, true, false, Option, none, some, if◌then◌else◌}
use url_shortner.Prelude.Int.{pos, leb_ℤ, ltb_ℤ}
use url_shortner.Text.{Text, codes}
use url_shortner.Time.{Time, Duration, sub}
use url_shortner.Errors.{Error, Result, ok, err, foreign, is, redirect_cache_miss}
use url_shortner.Io.{Io, pure, raise, lift, attempt, assign, ◌>>=◌, ◌>>◌}
use url_shortner.Domain.Status.{LinkStatus, active, status_eq}
use url_shortner.Domain.Link.{Link}
use url_shortner.Domain.Mapping.{RedirectMapping, redirect_mapping_from_link}
use url_shortner.Ports.{Context, LinkRepository, Clock, LinkResolver, RedirectCache, current_time}

pub record RedirectCacheConfig : Type 0 where
  pub operation_timeout : Duration
  pub active_ttl : Duration
  pub inactive_ttl : Duration

-- The three errors of validateRedirectCacheConfig, which no code tells apart by errors.Is.
abbrev pub timeout_not_positive : Error
timeout_not_positive = foreign 1

abbrev pub active_ttl_not_positive : Error
active_ttl_not_positive = foreign 2

abbrev pub inactive_ttl_not_positive : Error
inactive_ttl_not_positive = foreign 3

unfoldable pub validate_redirect_cache_config : RedirectCacheConfig → Result (Unit {0})
validate_redirect_cache_config config =
    if leb_ℤ config.operation_timeout (pos 0)
    then err timeout_not_positive
    else if leb_ℤ config.active_ttl (pos 0)
    then err active_ttl_not_positive
    else if leb_ℤ config.inactive_ttl (pos 0)
    then err inactive_ttl_not_positive
    else ok tt

-- `ttl := inactiveTTL; if mapping.Status() == domain.Active { ttl = activeTTL }`
unfoldable pub status_ttl : RedirectMapping → Duration → Duration → Duration
status_ttl mapping active_ttl inactive_ttl =
    if status_eq mapping.status active then active_ttl else inactive_ttl

-- The rest of redirectCacheTTL, from the expiration on.
unfoldable pub clamped_ttl : Option Time → Time → Duration → Duration × Bool
clamped_ttl none now ttl = (ttl, true)
clamped_ttl (some expires_at) now ttl =
    let remaining = sub expires_at now in
    if leb_ℤ remaining (pos 0)
    then (pos 0, false)
    else if ltb_ℤ remaining ttl
    then (remaining, true)
    else (ttl, true)

unfoldable pub redirect_cache_ttl : RedirectMapping → Time → Duration → Duration → Duration × Bool
unfolding clamped_ttl status_ttl
redirect_cache_ttl mapping now active_ttl inactive_ttl =
    clamped_ttl mapping.expires_at now (status_ttl mapping active_ttl inactive_ttl)

pub record RedirectCacheMetrics (S : Type 0) : Type 0 where
  pub record_cache_get : Text → S → S
  pub record_source_lookup : Text → S → S
  pub record_cache_put : Text → S → S

-- context.WithTimeout: what the derived context reports while the call runs.
abbrev pub WithTimeout : Type 0
WithTimeout = Context → Duration → Context

pub record RedirectCacheRefresher (S : Type 0) : Type 0 where
  pub cache : RedirectCache S
  pub clock : Clock S
  pub operation_timeout : Duration
  pub active_ttl : Duration
  pub inactive_ttl : Duration

pub record CacheAsideResolver (S : Type 0) : Type 0 where
  pub cache : RedirectCache S
  pub source : LinkResolver S
  pub clock : Clock S
  pub config : RedirectCacheConfig
  pub metrics : Option (RedirectCacheMetrics S)

module _ {S : Type 0} where
  -- recordCacheGet, recordSourceLookup and recordCachePut do nothing without metrics.
  abbrev pub recorded :
      (RedirectCacheMetrics S → Text → S → S)
      → Option (RedirectCacheMetrics S)
      → Text
      → Io S (Unit {0})
  recorded call none result = pure tt
  recorded call (some metrics) result = assign (call metrics result)

  -- NewCacheAsideResolver, with the options applied
  unfoldable pub new_cache_aside_resolver :
      RedirectCache S
      → LinkResolver S
      → Clock S
      → RedirectCacheConfig
      → Option (RedirectCacheMetrics S)
      → Result (CacheAsideResolver S)
  new_cache_aside_resolver cache source clock config metrics =
      elim (validate_redirect_cache_config config) [
        | err e ↦ err e
        | ok valid ↦ ok (record {
          cache = cache;
          source = source;
          clock = clock;
          config = config;
          metrics = metrics;
        })
      ]

  module _ (with_timeout : WithTimeout) (r : CacheAsideResolver S) where
    abbrev cache_get : Text → Io S (Unit {0})
    cache_get = recorded (λ m. m.record_cache_get) r.metrics

    abbrev source_lookup : Text → Io S (Unit {0})
    source_lookup = recorded (λ m. m.record_source_lookup) r.metrics

    abbrev cache_put : Text → Io S (Unit {0})
    cache_put = recorded (λ m. m.record_cache_put) r.metrics

    -- The label of a failed read.
    unfoldable pub get_result : Error → Text
    get_result e = if is e redirect_cache_miss then codes "miss" else codes "error"

    -- The write, whose error is only counted.
    unfoldable pub write_back : Context → RedirectMapping → Duration → Io S RedirectMapping
    write_back ctx mapping ttl = do
      answer ←
          attempt (r.cache.put_if_newer (with_timeout ctx r.config.operation_timeout) mapping ttl)
      cache_put (elim answer [ ok done ↦ codes "success" | err e ↦ codes "error" ])
      pure mapping

    unfoldable pub filled : Context → Result RedirectMapping → Io S RedirectMapping
    unfolding write_back
    filled ctx (err e) = do source_lookup (codes "error"); raise e
    filled ctx (ok mapping) = do
      source_lookup (codes "success")
      now ← current_time r.clock
      let (ttl, should_cache) =
          redirect_cache_ttl mapping now r.config.active_ttl r.config.inactive_ttl
      if should_cache
          then write_back ctx mapping ttl
          else do cache_put (codes "skipped"); pure mapping

    unfoldable pub after_get : Context → Text → Result RedirectMapping → Io S RedirectMapping
    unfolding filled get_result
    after_get ctx code (ok mapping) = do cache_get (codes "hit"); pure mapping
    after_get ctx code (err e) = do
      cache_get (get_result e)
      found ← attempt (r.source.resolve ctx code)
      filled ctx found

    unfoldable pub resolve : Context → Text → Io S RedirectMapping
    unfolding after_get
    resolve ctx code = do
      found ← attempt (r.cache.get (with_timeout ctx r.config.operation_timeout) code)
      after_get ctx code found

  -- RepositoryResolver.Resolve
  unfoldable pub repository_resolve : LinkRepository S → Context → Text → Io S RedirectMapping
  repository_resolve repository ctx code = do
    link ← repository.find_by_code ctx code
    lift (redirect_mapping_from_link link)

  -- NewRedirectCacheRefresher
  unfoldable pub new_redirect_cache_refresher :
      RedirectCache S → Clock S → RedirectCacheConfig → Result (RedirectCacheRefresher S)
  new_redirect_cache_refresher cache clock config = elim (validate_redirect_cache_config config) [
    | err e ↦ err e
    | ok valid ↦ ok (record {
      cache = cache;
      clock = clock;
      operation_timeout = config.operation_timeout;
      active_ttl = config.active_ttl;
      inactive_ttl = config.inactive_ttl;
    })
  ]

  -- RedirectCacheRefresher.Refresh
  unfoldable pub refresh : WithTimeout → RedirectCacheRefresher S → Context → Link → Io S (Unit {0})
  refresh with_timeout r ctx link = do
    mapping ← lift (redirect_mapping_from_link link)
    now ← current_time r.clock
    let (ttl, should_cache) = redirect_cache_ttl mapping now r.active_ttl r.inactive_ttl
    if should_cache
        then r.cache.put_if_newer (with_timeout ctx r.operation_timeout) mapping ttl
        else pure tt

  -- CacheRefreshingRepository.Update, over any refresher
  unfoldable pub refreshing_update :
      LinkRepository S → (Context → Link → Io S (Unit {0})) → Context → Link → ℕ → Io S (Unit {0})
  refreshing_update source refresher ctx link expected_version = do
    source.update ctx link expected_version
    ignored ← attempt (refresher ctx link)
    pure tt

  -- CacheRefreshingRepository
  abbrev pub cache_refreshing_repository :
      LinkRepository S → (Context → Link → Io S (Unit {0})) → LinkRepository S
  cache_refreshing_repository source refresher = record {
    insert = source.insert;
    find_by_code = source.find_by_code;
    update = refreshing_update source refresher;
  }
