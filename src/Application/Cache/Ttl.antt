-- ===== src/Application/Cache/Ttl.antt =====
-- The lifetime of a cached mapping.
use url_shortner.Domain.Status.{LinkStatus, unknown, active, disabled, deleted, status_eq, active}
use url_shortner.Prelude.{
  ◌*◌, ◌⊎◌, inl, inr, refl, ◌≢◌, ◌+◌, ◌≤◌, ◌<◌, ◌≡◌, ◌↔◌, true, false, Option, none, some, arith,
}
use url_shortner.Prelude.Int.{pos_part}
use url_shortner.Time.{Time, Duration, sub}
use url_shortner.Errors.{ok}
use url_shortner.Domain.Mapping.{RedirectMapping}
use url_shortner.Application.Cache.{
  RedirectCacheConfig, validate_redirect_cache_config, status_ttl, clamped_ttl, redirect_cache_ttl,
}

abbrev pub Positive : Duration → Type 0
Positive d = 0 < pos_part d

-- An entry that lives for `ttl` from `now` is gone by the expiration, if there is one.
abbrev pub GoneBy : Option Time → Time → Duration → Type 0
GoneBy none now ttl = Unit
GoneBy (some e) now ttl = now + pos_part ttl ≤ e

-- A lifetime that lasts as the one configured, with the ten percent of jitter that the documents
-- allow: no longer, and, without an expiration, no shorter.
abbrev pub LastsAs : Option Time → Duration → Duration → Type 0
LastsAs none configured ttl =
    (9 * pos_part configured ≤ 10 * pos_part ttl) × (10 * pos_part ttl ≤ 11 * pos_part configured)
LastsAs (some e) configured ttl = 10 * pos_part ttl ≤ 11 * pos_part configured

clamped_bounds :
    (e : Option Time) (now : Time) (most ttl : Duration)
    → Positive most
    → clamped_ttl e now most ≡ (ttl, true)
    → Positive ttl × GoneBy e now ttl × LastsAs e most ttl
unfolding clamped_ttl sub
clamped_bounds none now most ttl p h = ground arith
clamped_bounds (some e) now most ttl p h = ground arith

status_ttl-Positive :
    (m : RedirectMapping) (a i : Duration) → Positive a → Positive i → Positive (status_ttl m a i)
unfolding status_ttl
status_ttl-Positive m a i p q = ground arith

status_cases :
    (s : LinkStatus)
    → ((s ≡ active) × (status_eq s active ≡ true)) ⊎ ((s ≢ active) × (status_eq s active ≡ false))
status_cases unknown = inr (λ e. ground arith, refl)
status_cases active = inl (refl, refl)
status_cases disabled = inr (λ e. ground arith, refl)
status_cases deleted = inr (λ e. ground arith, refl)

-- The lifetime lasts as the one configured for the status of the mapping.
abbrev pub Lasts : RedirectMapping → Duration → Duration → Duration → Type 0
Lasts m active_ttl inactive_ttl ttl =
    ((m.status ≡ active) × LastsAs m.expires_at active_ttl ttl)
    ⊎ ((m.status ≢ active) × LastsAs m.expires_at inactive_ttl ttl)

status_ttl-Lasts :
    (m : RedirectMapping) (active_ttl inactive_ttl ttl : Duration)
    → LastsAs m.expires_at (status_ttl m active_ttl inactive_ttl) ttl
    → Lasts m active_ttl inactive_ttl ttl
unfolding status_ttl
status_ttl-Lasts m a i ttl h = elim (status_cases m.status) [
  | inl (is, test) ↦ inl (is, rw test at h)
  | inr (other_than, test) ↦ inr (other_than, rw test at h)
]

-- With positive configured lifetimes, an entry that is to be cached gets a positive lifetime, is gone
-- by the time the link expires, and lasts at most a tenth longer than the lifetime configured for
-- active mappings, if the mapping is active, and for the others, if it is not; without an
-- expiration it also lasts at least nine tenths of that.
pub redirect_cache_ttl_bounds :
    (m : RedirectMapping) (now : Time) (active_ttl inactive_ttl ttl : Duration)
    → Positive active_ttl
    → Positive inactive_ttl
    → redirect_cache_ttl m now active_ttl inactive_ttl ≡ (ttl, true)
    → Positive ttl × GoneBy m.expires_at now ttl × Lasts m active_ttl inactive_ttl ttl
unfolding redirect_cache_ttl
redirect_cache_ttl_bounds m now a i ttl p q h =
    let (positive, gone, lasts) =
      clamped_bounds m.expires_at now (status_ttl m a i) ttl (status_ttl-Positive m a i p q) h in
    (positive, gone, status_ttl-Lasts m a i ttl lasts)

-- The expiration, if there is one, has come.
abbrev pub Past : Option Time → Time → Type 0
Past none now = ⊥
Past (some e) now = e ≤ now

clamped_skips :
    (e : Option Time) (now : Time) (most : Duration)
    → ((clamped_ttl e now most).1 ≡ false) ↔ Past e now
unfolding clamped_ttl sub
clamped_skips none now most = ground arith
clamped_skips (some e) now most = ground arith

-- A mapping is kept out of the cache exactly if it has expired.
pub redirect_cache_ttl_skips :
    (m : RedirectMapping) (now : Time) (active_ttl inactive_ttl : Duration)
    → ((redirect_cache_ttl m now active_ttl inactive_ttl).1 ≡ false) ↔ Past m.expires_at now
unfolding redirect_cache_ttl
redirect_cache_ttl_skips m now a i = clamped_skips m.expires_at now (status_ttl m a i)

-- A configuration passes its check exactly if all three durations are positive.
pub validate_redirect_cache_config_iff :
    (c : RedirectCacheConfig)
    → (validate_redirect_cache_config c ≡ ok tt)
      ↔ Positive c.operation_timeout × Positive c.active_ttl × Positive c.inactive_ttl
unfolding validate_redirect_cache_config
validate_redirect_cache_config_iff c = ground arith
