-- ===== src/Domain/Destination.antt =====
-- internal/link/domain/destination_url.go
pub mod Normal
use url_shortner.Prelude.{Bool, not, ◌||◌, Option, none, some}
use url_shortner.Text.{Text, codes, text_eq, is_empty, trim_space, to_lower}
use url_shortner.Errors.{
  Sentinel, Result, ok, fail, fail_if, ◌>>=◌, ◌>>◌, empty_destination, malformed_destination,
  unsupported_scheme, missing_host,
}
use url_shortner.Net.{Url, UrlLib}

pub record DestinationUrl : Type 0 where
  pub value : Text

-- `value, err := call()` where the program looks at the error for nil only
abbrev pub or_fail {ℓ} : {A : Type ℓ} → Option A → Sentinel → Result A
or_fail none s = fail s
or_fail (some a) s = ok a

abbrev pub is_web : Text → Bool
is_web scheme = text_eq scheme (codes "http") || text_eq scheme (codes "https")

unfoldable pub new_destination_url : UrlLib → Text → Result DestinationUrl
new_destination_url lib raw = do
  let trimmed = trim_space raw
  fail_if (is_empty trimmed) empty_destination
  parsed ← or_fail (lib.parse_request_uri trimmed) malformed_destination
  fail_if (is_empty parsed.scheme) malformed_destination
  let scheme = to_lower lib.lower_beyond parsed.scheme
  fail_if (not (is_web scheme)) unsupported_scheme
  fail_if (is_empty parsed.host) missing_host
  let host = to_lower lib.lower_beyond parsed.host
  ok (record { value = lib.to_string (record parsed { scheme = scheme; host = host }) })

-- The zero value, DestinationURL{}.
abbrev pub zero_destination_url : DestinationUrl
zero_destination_url = record { value = codes "" }

-- DestinationURL.IsZero
unfoldable pub is_zero : DestinationUrl → Bool
is_zero d = is_empty d.value

-- `==` on destinations
unfoldable pub same : DestinationUrl → DestinationUrl → Bool
same d e = text_eq d.value e.value
