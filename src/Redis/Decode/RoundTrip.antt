-- ===== src/Redis/Decode/RoundTrip.antt =====
-- What the cache reads of what it wrote.
use url_shortner.Prelude.{
  ℕ, ◌+◌, ◌-◌, ◌*◌, ◌/◌, ◌^◌, ◌≤◌, ◌<◌, ◌≡◌, ◌∙◌, ap, refl, true, Option, none, some, [], ◌∷◌,
  arith,
}
use url_shortner.Prelude.Int.{pos}
use url_shortner.Prelude.Maps.{lookup}
use url_shortner.Text.{Text, is_empty, text_eq}
use url_shortner.Text.Decimal.{format_uint, format_int, parse_uint, all_digits, is_digit}
use url_shortner.Text.Decimal.Canonical.{
  parse_uint-format_uint, format_uint_there, format_uint-digits,
}
use url_shortner.Time.{Time, unix_epoch, unix_milli, wrap_int64, max_int64, uint64_mod}
use url_shortner.Errors.{ok}
use url_shortner.Net.{UrlLib}
use url_shortner.Domain.Status.{parse_link_status, to_string}
use url_shortner.Domain.Status.Transitions.{parse_link_status_iff}
use url_shortner.Domain.Status
use url_shortner.Domain.Destination.{new_destination_url}
use url_shortner.Domain.Mapping.{RedirectMapping, new_redirect_mapping}
use url_shortner.Redis.{hash_fields, arguments, expires_at_text}
use url_shortner.Redis.Decode.{nonnegative, parse_int, from_unix_milli, parse_expires_at, decode}

-- No expiration, or one from 1970 on whose milliseconds fit an int64.
abbrev pub Storable : Option Time → Type 0
Storable none = Unit
Storable (some t) = (unix_epoch ≤ t) × ((t - unix_epoch) / 10 ^ 6 ≤ max_int64)

-- The expiration cut down to the millisecond.
abbrev pub to_millisecond : Option Time → Option Time
to_millisecond none = none
to_millisecond (some t) = some (unix_epoch + (t - unix_epoch) / 10 ^ 6 * 10 ^ 6)

unsigned : (s : Text) → all_digits s ≡ true → parse_int s ≡ nonnegative (parse_uint s)
unfolding parse_int all_digits is_digit
unsigned [] h = unfold parse_uint is_empty in refl
unsigned (c ∷ s) h = ground arith

parse_int-format_uint : (n : ℕ) → n ≤ max_int64 → parse_int (format_uint n) ≡ some (pos n)
parse_int-format_uint n le =
    unsigned (format_uint n) (format_uint-digits n)
    ∙ ap nonnegative (parse_uint-format_uint n (omega arith))
    ∙ ground arith

unix_milli_later : (t : Time) → Storable (some t) → unix_milli t ≡ pos ((t - unix_epoch) / 10 ^ 6)
unfolding unix_milli wrap_int64
unix_milli_later t st = ground arith

parse_expires_at-text :
    (e : Option Time) → Storable e → parse_expires_at (expires_at_text e) ≡ ok (to_millisecond e)
unfolding parse_expires_at expires_at_text from_unix_milli format_int
parse_expires_at-text none st = unfold is_empty in refl
parse_expires_at-text (some t) st =
    let n = (t - unix_epoch) / 10 ^ 6 in
    rw (unix_milli_later t st, format_uint_there n, parse_int-format_uint n st.1) refl

-- What NewRedirectMapping says of a mapping holds with any other expiration.
new_redirect_mapping-again :
    (m : RedirectMapping) (e : Option Time)
    → new_redirect_mapping m.code m.destination m.status m.expires_at m.version ≡ ok m
    → (Status.is_valid m.status ≡ true)
      × (new_redirect_mapping m.code m.destination m.status e m.version
          ≡ ok (record m { expires_at = e }))
unfolding new_redirect_mapping
new_redirect_mapping-again m e h = ground arith

-- A mapping that the cache wrote is read back as it was, except that its expiration is cut down to
-- the millisecond, if NewDestinationURL keeps its destination, NewRedirectMapping keeps its fields,
-- its version is a uint64, and it has no expiration or one from 1970 on whose milliseconds fit an
-- int64.
pub decode-arguments :
    (lib : UrlLib) (m : RedirectMapping) (ttl : ℕ)
    → new_destination_url lib m.destination.value ≡ ok m.destination
    → new_redirect_mapping m.code m.destination m.status m.expires_at m.version ≡ ok m
    → m.version < uint64_mod
    → Storable m.expires_at
    → decode lib m.code (hash_fields (arguments m ttl))
      ≡ ok (record m { expires_at = to_millisecond m.expires_at })
unfolding decode arguments lookup text_eq
decode-arguments lib m ttl normal valid bound storable =
    let (named, again) = new_redirect_mapping-again m (to_millisecond m.expires_at) valid in
    let status = (parse_link_status_iff (to_string m.status) m.status).1 (named, refl) in
    rw
      (
        normal,
        status,
        parse_uint-format_uint m.version bound,
        parse_expires_at-text m.expires_at storable,
        again,
      )
      refl
