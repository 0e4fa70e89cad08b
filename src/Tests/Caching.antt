-- ===== src/Tests/Caching.antt =====
-- Examples on the redirect path: the resolver, the cache's lifetimes, the versioned write in Redis.
use url_shortner.Prelude.{ℕ, ◌≡◌, refl, Option, none, some, [], arith, if◌then◌else◌}
use url_shortner.Prelude.Int.{pos}
use url_shortner.Prelude.Maps.{lookup, lookup}
use url_shortner.Text.{
  is_empty, trim_space, trim_right, trim_left, is_space, Text, codes, text_eq, text_key,
  text_eq_refl,
}
use url_shortner.Text.Decimal.{format_uint}
use url_shortner.Time.{is_zero, zero_time, sub, is_zero, zero_time}
use url_shortner.Errors.{ok, err, foreign}
use url_shortner.Io.{Io, raise}
use url_shortner.Domain.Status.{active}
use url_shortner.Domain.Status
use url_shortner.Domain.Link.{Link}
use url_shortner.Domain.Mapping.{
  redirect_mapping_from_link, can_redirect, RedirectMapping, redirect_mapping_from_link,
  can_redirect,
}
use url_shortner.Domain.Mapping.Agreement.{projection, Before}
use url_shortner.Ports.{Context, LinkResolver, RedirectCache}
use url_shortner.Ports.Laws.{RepositoryLaws}
use url_shortner.Domain.Destination
use url_shortner.Memory.Repository.{find_by_code}
use url_shortner.Application.Cache.{
  RedirectCacheConfig, CacheAsideResolver, WithTimeout, redirect_cache_ttl, status_ttl, clamped_ttl,
  resolve, repository_resolve, cache_refreshing_repository,
}
use url_shortner.Application.Cache.Ttl.{Positive, GoneBy, Lasts, redirect_cache_ttl_bounds}
use url_shortner.Application.Cache.Transparency.{expected_answer, resolve_answer, refreshing_laws}
use url_shortner.Application.Redirect.{RedirectLinkRequest, redirect_link}
use url_shortner.Application.Redirect.Safety.{redirect_ok}
use url_shortner.Redis.{Commands, Arguments, put_if_newer_script}
use url_shortner.Redis.Versions.{CommandLaws, or_else, nothing, Holds, put_race}
use url_shortner.Tests.World.{link, World, world, links, table, links_laws, clock}

abbrev limited : RedirectMapping
limited = record (projection link) { expires_at = some 90 }

abbrev config : RedirectCacheConfig
config = record { operation_timeout = pos 50; active_ttl = pos 300; inactive_ttl = pos 30 }

redirect_cache_ttl_bounds_example :
    Positive (pos 70) × GoneBy (some 90) 20 (pos 70) × Lasts limited (pos 300) (pos 30) (pos 70)
unfolding redirect_cache_ttl clamped_ttl status_ttl sub
redirect_cache_ttl_bounds_example =
    redirect_cache_ttl_bounds limited 20 (pos 300) (pos 30) (pos 70) (omega arith) (omega arith)
      refl

-- A cache that is down.
abbrev broken_cache : RedirectCache World
broken_cache = record {
  get = λ ctx code. raise (foreign 7);
  put_if_newer = λ ctx mapping ttl. raise (foreign 7);
}

abbrev source : LinkResolver World
source = record { resolve = repository_resolve links }

abbrev resolver : CacheAsideResolver World
resolver = record {
  cache = broken_cache;
  source = source;
  clock = clock;
  config = config;
  metrics = none;
}

abbrev same_context : WithTimeout
same_context ctx timeout = ctx

resolve_answer_example :
    (resolve same_context resolver none (codes "0") world).0
    ≡ expected_answer same_context resolver none (codes "0") (err (foreign 7)) world
resolve_answer_example = resolve_answer same_context resolver none (codes "0") world

abbrev visit : RedirectLinkRequest
visit = record { code = codes "0" }

redirect_ok_example :
    (m : RedirectMapping) × ((source.resolve none (codes "0") world).0 ≡ ok m)
    × (link.destination.value ≡ m.destination.value)
    × (m.status ≡ active)
    × Before m.expires_at (clock.now (source.resolve none (codes "0") world).1).0
unfolding redirect_link repository_resolve find_by_code lookup text_eq redirect_mapping_from_link
    is_empty trim_space trim_right trim_left is_space Destination.is_zero Status.is_valid
    can_redirect is_zero zero_time Status.can_redirect
redirect_ok_example =
    redirect_ok source clock none visit world (record { destination = link.destination.value }) refl

-- A refresh that fails.
abbrev no_refresh : Context → Link → Io World (Unit {0})
no_refresh ctx l = raise (foreign 7)

refreshing_laws_example : RepositoryLaws (cache_refreshing_repository links no_refresh) table
refreshing_laws_example = refreshing_laws links no_refresh links_laws (λ ctx l w. refl)

-- A server without expirations: the hashes of all keys.
abbrev Hashes : Type 0
Hashes = Text → Text → Option Text

abbrev server : Commands Hashes
server = record {
  hget = λ key field s. s key field;
  hset = λ key fields s k field.
      if text_eq k key then or_else (lookup field fields) (s k field) else s k field;
  pexpire = λ key ttl s. s;
}

server_laws : CommandLaws server
server_laws = record {
  hget_hset = λ key field fields s. rw (text_eq_refl key);
  hget_pexpire = λ key field ttl s positive. refl;
}

abbrev version_of : ℕ → Arguments
version_of v = record {
  destination = codes "https://go.dev/";
  status = codes "active";
  version = format_uint v;
  expires_at = [];
  ttl_milliseconds = 1000;
}

put_race_example :
    (let put = λ (x : Arguments) (s : Hashes). (put_if_newer_script server (codes "0") x s).1 in
      let empty : Hashes = λ key field. none in
      Holds server server_laws
        (codes "0")
        (version_of 10)
        (put (version_of 10) (put (version_of 9) empty))
      × Holds server server_laws
          (codes "0")
          (version_of 10)
          (put (version_of 9) (put (version_of 10) empty)))
put_race_example =
    put_race server server_laws (codes "0") (version_of 9) (version_of 10) 9 10 (λ key field. none)
      refl refl (omega arith) (omega arith) (omega arith) (omega arith) nothing
