-- ===== src/Config.antt =====
-- internal/config/config.go. The environment and time.ParseDuration are parameters, and so is
-- net/url; the errors of Load are told apart by a number, since no code looks into them.
pub mod Loaded
use url_shortner.Prelude.{
  ℕ, Bool, not, ◌&&◌, ◌||◌, Option, none, some, [], ◌∷◌, if◌then◌else◌, ◌==◌,
}
use url_shortner.Prelude.Int.{pos, leb_ℤ}
use url_shortner.Text.{Text, codes, text_eq, is_empty, trim_space, to_lower}
use url_shortner.Time.{Duration}
use url_shortner.Errors.{Error, Result, ok, err, foreign, ◌>>=◌, ◌>>◌}
use url_shortner.Net.{UrlLib}
use url_shortner.Domain.Destination.{is_web}

-- os.Getenv: the empty text for a name that is not set.
abbrev pub Env : Type 0
Env = Text → Text

abbrev pub storage_memory : Text
storage_memory = codes "memory"

abbrev pub storage_postgres : Text
storage_postgres = codes "postgres"

abbrev pub cache_none : Text
cache_none = codes "none"

abbrev pub cache_redis : Text
cache_redis = codes "redis"

pub record Config : Type 0 where
  pub storage : Text
  pub database_url : Text
  pub cache : Text
  pub redis_url : Text
  pub cache_operation_timeout : Duration
  pub cache_active_ttl : Duration
  pub cache_inactive_ttl : Duration
  pub addr : Text
  pub base_url : Text
  pub shutdown_timeout : Duration
  pub diagnostics_token : Text

-- `if cond { return Config{}, fmt.Errorf(...) }`
unfoldable pub refuse_if : Bool → ℕ → Result (Unit {0})
refuse_if refused n = if refused then err (foreign n) else ok tt

abbrev pub or_refuse {ℓ} : {A : Type ℓ} → Option A → ℕ → Result A
or_refuse none n = err (foreign n)
or_refuse (some a) n = ok a

-- `if raw == "" { raw = value }`
unfoldable pub or_default : Text → Text → Text
or_default value raw = if is_empty raw then value else raw

-- strings.TrimRight(s, "/")
abbrev pub unless_slash : ℕ → Text → Text
unless_slash c [] = if c == b'/' then [] else c ∷ []
unless_slash c (d ∷ s) = c ∷ d ∷ s

unfoldable pub trim_right_slashes : Text → Text
trim_right_slashes [] = []
trim_right_slashes (c ∷ s) = unless_slash c (trim_right_slashes s)

module _ (env : Env) (lib : UrlLib) (parse_duration : Text → Option Duration) where
  -- An entry of the environment, trimmed.
  abbrev pub entry : Text → Text
  entry name = trim_space (env name)

  -- The check that Load and loadPositiveDuration make of a duration.
  unfoldable pub positive_duration : Text → Result Duration
  unfolding refuse_if
  positive_duration raw = do
    value ← or_refuse (parse_duration raw) 41
    refuse_if (leb_ℤ value (pos 0)) 42
    ok value

  unfoldable pub load_positive_duration : Text → Text → Result Duration
  unfolding positive_duration
  load_positive_duration name default_value =
      positive_duration (or_default default_value (entry name))

  unfoldable pub load_storage : Result Text
  unfolding refuse_if or_default
  load_storage = do
    let storage =
        or_default storage_memory (to_lower lib.lower_beyond (entry (codes "TINYURL_STORAGE")))
    refuse_if (not (text_eq storage storage_memory) && not (text_eq storage storage_postgres)) 43
    ok storage

  unfoldable pub load_database_url : Text → Result Text
  unfolding refuse_if
  load_database_url storage = do
    let database_url = entry (codes "TINYURL_DATABASE_URL")
    refuse_if (text_eq storage storage_postgres && is_empty database_url) 44
    ok database_url

  unfoldable pub load_base_url : Result Text
  unfolding refuse_if
  load_base_url = do
    let base_url =
        trim_right_slashes
          (or_default (codes "http://localhost:8080") (entry (codes "TINYURL_BASE_URL")))
    parsed ← or_refuse (lib.parse base_url) 45
    refuse_if (not (is_web parsed.scheme)) 46
    refuse_if (is_empty parsed.host) 47
    refuse_if (not (is_empty parsed.raw_query) || not (is_empty parsed.fragment)) 48
    ok base_url

  unfoldable pub load_cache : Result Text
  unfolding refuse_if or_default
  load_cache = do
    let cache = or_default cache_none (to_lower lib.lower_beyond (entry (codes "TINYURL_CACHE")))
    refuse_if (not (text_eq cache cache_none) && not (text_eq cache cache_redis)) 49
    ok cache

  unfoldable pub load_redis_url : Text → Result Text
  unfolding refuse_if
  load_redis_url cache = do
    let redis_url = entry (codes "TINYURL_REDIS_URL")
    refuse_if (text_eq cache cache_redis && is_empty redis_url) 50
    ok redis_url

  unfoldable pub load : Result Config
  load = do
    storage ← load_storage
    database_url ← load_database_url storage
    let addr = or_default (codes ":8080") (entry (codes "TINYURL_ADDR"))
    base_url ← load_base_url
    shutdown_timeout ←
        positive_duration (or_default (codes "10s") (entry (codes "TINYURL_SHUTDOWN_TIMEOUT")))
    let diagnostics_token = entry (codes "TINYURL_DIAGNOSTICS_TOKEN")
    cache ← load_cache
    redis_url ← load_redis_url cache
    operation_timeout ←
        load_positive_duration (codes "TINYURL_CACHE_OPERATION_TIMEOUT") (codes "25ms")
    active_ttl ← load_positive_duration (codes "TINYURL_CACHE_ACTIVE_TTL") (codes "60s")
    inactive_ttl ← load_positive_duration (codes "TINYURL_CACHE_INACTIVE_TTL") (codes "30s")
    ok (record {
      storage = storage;
      database_url = database_url;
      cache = cache;
      redis_url = redis_url;
      cache_operation_timeout = operation_timeout;
      cache_active_ttl = active_ttl;
      cache_inactive_ttl = inactive_ttl;
      addr = addr;
      base_url = base_url;
      shutdown_timeout = shutdown_timeout;
      diagnostics_token = diagnostics_token;
    })
