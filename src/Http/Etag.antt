-- ===== src/Http/Etag.antt =====
-- internal/link/adapters/httpapi/management_handler.go: the answer that shows a link, and the version
-- of the link in the ETag header, and back through the If-Match header.
use url_shortner.Prelude.{
  Option, ap, ◌∙◌, ℕ, ◌<◌, ◌≡◌, refl, some, [], ◌∷◌, ◌++◌, length, length-append, false, arith,
}
use url_shortner.Text.{Text, codes, is_empty}
use url_shortner.Text.Decimal.{format_uint}
use url_shortner.Text.Decimal.Canonical.{parse_uint-format_uint, format_uint_there}
use url_shortner.Time.{Time, uint64_mod}
use url_shortner.Errors.{ok}
use url_shortner.Domain.Status.{to_string}
use url_shortner.Domain.Link.{Link}
use url_shortner.Http.{unquoted_version, up_to_quote, quoted, nonzero_version, parse_if_match}

-- fmt.Sprintf(`"%d"`, version)
unfoldable pub etag : ℕ → Text
etag version = b'"' ∷ (format_uint version ++ b'"' ∷ [])

-- managedLinkResponse, with the headers ETag and Cache-Control
pub record ManagedLinkResponse : Type 0 where
  pub etag_header : Text
  pub cache_control : Text
  pub code : Text
  pub destination : Text
  pub status : Text
  pub created_at : Time
  pub updated_at : Time
  pub expires_at : Option Time
  pub version : ℕ

-- writeManagedLinkResponse, which writes what `shown` stands for
unfoldable pub managed_link_response : Link → ManagedLinkResponse
unfolding etag
managed_link_response link = record {
  etag_header = etag link.version;
  cache_control = codes "private, no-store";
  code = link.code;
  destination = link.destination.value;
  status = to_string link.status;
  created_at = link.created_at;
  updated_at = link.updated_at;
  expires_at = link.expires_at;
  version = link.version;
}

up_to_quote-append : (s : Text) → up_to_quote (s ++ b'"' ∷ []) ≡ some s
unfolding up_to_quote
up_to_quote-append [] = refl
up_to_quote-append (c ∷ []) = refl
up_to_quote-append (c ∷ d ∷ s) = rw (up_to_quote-append (d ∷ s))

length-there : (s : Text) → is_empty s ≡ false → 0 < length s
unfolding is_empty
length-there [] h = absurd (ground arith)
length-there (c ∷ s) h = omega arith

quoted-etag : (s : Text) → is_empty s ≡ false → quoted (b'"' ∷ (s ++ b'"' ∷ [])) ≡ some s
unfolding quoted
quoted-etag s h =
    ground (arith, length-there s h, length-append s (b'"' ∷ []), up_to_quote-append s)

-- The ETag of a version comes back through the If-Match header as that version, for every uint64
-- but 0.
pub parse_if_match-etag :
    (version : ℕ) → 0 < version → version < uint64_mod → parse_if_match (etag version) ≡ ok version
unfolding parse_if_match etag unquoted_version nonzero_version
parse_if_match-etag version p bound =
    ap unquoted_version (quoted-etag (format_uint version) (format_uint_there version))
    ∙ ap nonzero_version (parse_uint-format_uint version bound)
    ∙ ground arith
