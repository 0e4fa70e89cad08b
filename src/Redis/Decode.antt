-- ===== src/Redis/Decode.antt =====
-- internal/link/adapters/redis/redirect_cache.go: the read of the redirect cache. The answer of
-- HGETALL is a parameter.
pub mod RoundTrip
use url_shortner.Prelude.{
  ℕ, ◌+◌, ◌-◌, ◌*◌, ◌^◌, Option, none, some, List, [], ◌∷◌, ◌++◌, ◌==◌, leb, if◌then◌else◌,
}
use url_shortner.Prelude.Int.{ℤ, pos, negsuc, sub_ℕ}
use url_shortner.Prelude.Maps.{lookup}
use url_shortner.Text.{Text, codes, is_empty, text_key}
use url_shortner.Text.Decimal.{parse_uint}
use url_shortner.Time.{Time, unix_epoch, max_int64}
use url_shortner.Errors.{
  wrap, Error, Result, ok, err, fail, foreign, wrapped, ◌>>=◌, redirect_cache_miss,
}
use url_shortner.Io.{Io}
use url_shortner.Net.{UrlLib}
use url_shortner.Domain.Status.{parse_link_status}
use url_shortner.Domain.Destination.{new_destination_url}
use url_shortner.Domain.Mapping.{RedirectMapping, new_redirect_mapping}
use url_shortner.Ports.{Context}
use url_shortner.Redis.{Fields, redirect_key_prefix}

-- `fields[name]`: the empty text for a field that is not there.
abbrev pub or_empty : Option Text → Text
or_empty none = []
or_empty (some t) = t

abbrev pub field : Text → Fields → Text
field name fields = or_empty (lookup name fields)

-- The errors of strconv.
abbrev pub or_syntax {ℓ} : {A : Type ℓ} → Option A → Result A
or_syntax none = err (foreign 8)
or_syntax (some a) = ok a

-- strconv.ParseInt(s, 10, 64)
abbrev pub nonnegative : Option ℕ → Option ℤ
nonnegative none = none
nonnegative (some n) = if leb n max_int64 then some (pos n) else none

abbrev pub negated : Option ℕ → Option ℤ
negated none = none
negated (some n) = if leb n (max_int64 + 1) then some (sub_ℕ 0 n) else none

unfoldable pub parse_int : Text → Option ℤ
parse_int [] = none
parse_int (c ∷ s) =
    if c == b'-'
    then negated (parse_uint s)
    else if c == b'+'
    then nonnegative (parse_uint s)
    else nonnegative (parse_uint (c ∷ s))

-- time.UnixMilli, whose argument is an int64
unfoldable pub from_unix_milli : ℤ → Time
from_unix_milli (pos n) = unix_epoch + n * 10 ^ 6
from_unix_milli (negsuc n) = unix_epoch - (n + 1) * 10 ^ 6

-- parseExpiresAt
unfoldable pub parse_expires_at : Text → Result (Option Time)
parse_expires_at raw = if is_empty raw then ok none else (do
  milliseconds ← wrap (or_syntax (parse_int raw))
  ok (some (from_unix_milli milliseconds)))

module _ (lib : UrlLib) where
  -- Get, from the fields on.
  unfoldable pub decode : Text → Fields → Result RedirectMapping
  decode code [] = fail redirect_cache_miss
  decode code (f ∷ fs) = do
    let fields = f ∷ fs
    destination ← wrap (new_destination_url lib (field (codes "destination") fields))
    status ← wrap (parse_link_status (field (codes "status") fields))
    version ← wrap (or_syntax (parse_uint (field (codes "version") fields)))
    expires_at ← parse_expires_at (field (codes "expires_at") fields)
    wrap (new_redirect_mapping code destination status expires_at version)

  unfoldable pub answered : Text → Result Fields → Result RedirectMapping
  unfolding decode
  answered code (err e) = err (wrapped e)
  answered code (ok fields) = decode code fields

  unfoldable pub get :
      {S : Type 0} → (Context → Text → Io S Fields) → Context → Text → Io S RedirectMapping
  unfolding answered
  get hget_all ctx code s =
      let (answer, s') = hget_all ctx (redirect_key_prefix ++ code) s in (answered code answer, s')
