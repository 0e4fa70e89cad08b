-- ===== src/Tests/Wiring.antt =====
-- An example of a loaded configuration with a Redis cache.
use url_shortner.Prelude.{◌≡◌, refl, Option, some, [], if◌then◌else◌}
use url_shortner.Prelude.Int.{pos}
use url_shortner.Text.{
  Text, codes, text_eq, is_empty, trim_space, trim_left, trim_right, is_space, to_lower,
  to_lower_rune,
}
use url_shortner.Time.{Duration}
use url_shortner.Errors.{ok}
use url_shortner.Net.{UrlLib}
use url_shortner.Config.{
  Env, Config, load, load_storage, load_database_url, load_base_url, load_cache, load_redis_url,
  load_positive_duration, positive_duration, trim_right_slashes,
}
use url_shortner.Tests.World.{lib}

abbrev redis_env : Env
redis_env name =
    if text_eq name (codes "TINYURL_CACHE")
    then codes "redis"
    else if text_eq name (codes "TINYURL_REDIS_URL")
    then codes "nowhere"
    else []

abbrev pub durations : Text → Option Duration
durations t = some (pos 25_000_000)

abbrev pub base : UrlLib
base = record lib {
  parse = λ t. some (record {
    scheme = codes "http";
    host = codes "localhost:8080";
    raw_query = [];
    fragment = [];
    rest = [];
  });
}

abbrev configured : Config
configured = record {
  storage = codes "memory";
  database_url = [];
  cache = codes "redis";
  redis_url = codes "nowhere";
  cache_operation_timeout = pos 25_000_000;
  cache_active_ttl = pos 25_000_000;
  cache_inactive_ttl = pos 25_000_000;
  addr = codes ":8080";
  base_url = codes "http://localhost:8080";
  shutdown_timeout = pos 25_000_000;
  diagnostics_token = [];
}

loaded : load redis_env base durations ≡ ok configured
unfolding load load_storage load_database_url load_base_url load_cache load_redis_url
    load_positive_duration positive_duration trim_right_slashes text_eq is_empty trim_space
    trim_left trim_right is_space to_lower to_lower_rune
loaded = refl
