-- ===== src/Redis.antt =====
-- internal/link/adapters/redis/redirect_cache.go: the write of the redirect cache. Redis is a
-- parameter: the commands that the script calls and the behaviour that it relies on.
pub mod Versions
pub mod Decode
use url_shortner.Prelude.{
  ℕ, Bool, false, Option, none, some, List, [], ◌∷◌, ◌++◌, ◌||◌, ◌&&◌, ◌==◌, ltb, length,
  if◌then◌else◌,
}
use url_shortner.Prelude.Int.{pos, negsuc}
use url_shortner.Text.{Text, codes}
use url_shortner.Text.Decimal.{format_uint, format_int, text_gt}
use url_shortner.Time.{Time, Duration, unix_milli, milliseconds}
use url_shortner.Errors.{Error, ok, err, foreign, wrapped}
use url_shortner.Io.{Io, attempt, lift, raise, ◌>>=◌}
use url_shortner.Domain.Status.{to_string}
use url_shortner.Domain.Mapping.{RedirectMapping}
use url_shortner.Ports.{Context}

-- The fields of a hash, as HSET takes them.
abbrev pub Fields : Type 0
Fields = List (Text × Text)

-- The commands of the script, on the state of a server.
pub record Commands (S : Type 0) : Type 0 where
  pub hget : Text → Text → S → Option Text
  pub hset : Text → Fields → S → S
  pub pexpire : Text → ℕ → S → S

abbrev pub redirect_key_prefix : Text
redirect_key_prefix = codes "tinyurl:redirect:v1:"

-- The arguments ARGV[1] to ARGV[5] of the script.
pub record Arguments : Type 0 where
  pub destination : Text
  pub status : Text
  pub version : Text
  pub expires_at : Text
  pub ttl_milliseconds : ℕ

-- The two returns of the script on a current version; a missing one is nil.
unfoldable pub is_older : Option Text → Text → Bool
is_older none incoming = false
is_older (some current) incoming =
    ltb (length incoming) (length current)
    || (length current == length incoming && text_gt current incoming)

abbrev pub hash_fields : Arguments → Fields
hash_fields a =
    (codes "destination", a.destination)
    ∷ (codes "status", a.status)
    ∷ (codes "version", a.version)
    ∷ (codes "expires_at", a.expires_at)
    ∷ []

module _ {S : Type 0} (redis : Commands S) where
  -- putIfNewerScript, with KEYS[1]; Redis runs a script as one step.
  unfoldable pub put_if_newer_script : Text → Arguments → S → ℕ × S
  put_if_newer_script key a s =
      if is_older (redis.hget key (codes "version") s) a.version
      then (0, s)
      else (1, redis.pexpire key a.ttl_milliseconds (redis.hset key (hash_fields a) s))

-- How the client runs a script: over a network, so that an error may come before or after it ran.
abbrev pub Eval : Type 0 → Type 0
Eval S = Context → (S → ℕ × S) → Io S ℕ

-- An error of PutIfNewer's own, for a lifetime below a millisecond.
abbrev pub ttl_too_short : Error
ttl_too_short = foreign 4

-- `expiresAt := ""`, or the milliseconds of the expiration
unfoldable pub expires_at_text : Option Time → Text
expires_at_text none = codes ""
expires_at_text (some t) = format_int (unix_milli t)

unfoldable pub arguments : RedirectMapping → ℕ → Arguments
unfolding expires_at_text
arguments mapping ttl_milliseconds = record {
  destination = mapping.destination.value;
  status = to_string mapping.status;
  version = format_uint mapping.version;
  expires_at = expires_at_text mapping.expires_at;
  ttl_milliseconds = ttl_milliseconds;
}

module _ {S : Type 0} (redis : Commands S) (eval : Eval S) where
  -- The rest of PutIfNewer, once the lifetime is known to be positive.
  unfoldable pub run_put : Context → RedirectMapping → ℕ → Io S (Unit {0})
  run_put ctx mapping ttl = do
    answer ← attempt (
        eval ctx
          (put_if_newer_script redis (redirect_key_prefix ++ mapping.code) (arguments mapping ttl)))
    lift (elim answer [ ok n ↦ ok tt | err e ↦ err (wrapped e) ])

  unfoldable pub put_if_newer : Context → RedirectMapping → Duration → Io S (Unit {0})
  unfolding run_put
  put_if_newer ctx mapping ttl = elim (milliseconds ttl) [
    | pos n ↦ if n == 0 then raise ttl_too_short else run_put ctx mapping n
    | negsuc n ↦ raise ttl_too_short
  ]
