-- ===== src/Http.antt =====
-- internal/link/adapters/httpapi: management_handler.go, and the error answers of handler.go. A
-- response is its status code and, where the handler writes one, the link that it shows. Decoding
-- of JSON and of timestamps is a parameter; the headers and the path value come as texts.
pub mod Patch
pub mod Etag
pub mod Handler
use url_shortner.Prelude.{
  ℕ, ◌+◌, ◌-◌, Bool, true, false, ◌||◌, ◌&&◌, not, Option, none, some, List, [], ◌∷◌, ◌==◌, ltb,
  length, if◌then◌else◌,
}
use url_shortner.Text.{Text, codes, is_empty, trim_space, to_lower}
use url_shortner.Text.Decimal.{parse_uint, format_uint}
use url_shortner.Time.{Time}
use url_shortner.Errors.{
  Error, Sentinel, Result, ok, err, is, fail, fail_if, invalid_expected_version, link_not_found,
  link_access_denied, version_conflict, invalid_transition, deleted_link, unchanged_destination,
  unchanged_expiration, no_expiration, invalid_link_status, empty_destination,
  malformed_destination, unsupported_scheme, missing_host, empty_code, zero_destination,
  empty_owner_id, zero_created_at, invalid_expires_at, link_already_exists, link_unavailable,
}
use url_shortner.Io.{Io, pure, attempt, ◌>>=◌}
use url_shortner.Net.{UrlLib}
use url_shortner.Domain.Status.{LinkStatus, parse_link_status}
use url_shortner.Domain.Link.{Link}
use url_shortner.Ports.{Context, LinkRepository, Clock}
use url_shortner.Application.Management.{
  get_managed_link, change_link_status, change_link_destination, change_link_expiration,
}

pub data Response : Type 0 where
  -- http.Error or http.NotFound, with this code
  refused : ℕ → Response
  -- writeManagedLinkResponse with http.StatusOK
  shown : Link → Response

-- `errors.Is(err, a) || errors.Is(err, b) || ...`
unfoldable pub is_any : Error → List Sentinel → Bool
is_any e [] = false
is_any e (s ∷ rest) = is e s || is_any e rest

unfoldable pub is_validation_error : Error → Bool
unfolding is_any
is_validation_error e = is_any e (
    empty_destination ∷ malformed_destination ∷ unsupported_scheme ∷ missing_host ∷ empty_code
    ∷ zero_destination ∷ empty_owner_id ∷ zero_created_at ∷ invalid_expires_at ∷ [])

-- The status codes of writeCreateError, writeRedirectErr, Get and writeManagementMutationError.
unfoldable pub create_error_code : Error → ℕ
create_error_code e =
    if is e link_already_exists then 409 else if is_validation_error e then 400 else 500

unfoldable pub redirect_error_code : Error → ℕ
redirect_error_code e = if is e link_not_found || is e link_unavailable then 404 else 500

unfoldable pub get_error_code : Error → ℕ
get_error_code e = if is e link_not_found || is e link_access_denied then 404 else 500

unfoldable pub mutation_error_code : Error → ℕ
unfolding is_any
mutation_error_code e =
    if is_any e (link_not_found ∷ link_access_denied ∷ [])
    then 404
    else if is e version_conflict
    then 412
    else if is_any e (
        invalid_transition ∷ deleted_link ∷ unchanged_destination ∷ unchanged_expiration
        ∷ no_expiration ∷ [])
    then 409
    else if is_any e (invalid_expected_version ∷ invalid_link_status ∷ []) || is_validation_error e
    then 400
    else 500

-- isCodePath
unfoldable pub has_slash : Text → Bool
has_slash [] = false
has_slash (c ∷ s) = (c == b'/') || has_slash s

unfoldable pub is_code_path : Text → Bool
unfolding has_slash
is_code_path [] = false
is_code_path (c ∷ code) = not (is_empty code) && (c == b'/') && not (has_slash code)

-- The text between the quotes of `value[1 : len(value)-1]`; `none` if value has not two quotes with
-- something between them.
unfoldable pub up_to_quote : Text → Option Text
up_to_quote [] = none
up_to_quote (c ∷ []) = if c == b'"' then some [] else none
up_to_quote (c ∷ d ∷ s) = elim (up_to_quote (d ∷ s)) [ some t ↦ some (c ∷ t) | none ↦ none ]

unfoldable pub quoted : Text → Option Text
unfolding up_to_quote
quoted [] = none
quoted (c ∷ s) = if ltb (length s) 2 then none else if c == b'"' then up_to_quote s else none

unfoldable pub nonzero_version : Option ℕ → Result ℕ
nonzero_version none = fail invalid_expected_version
nonzero_version (some version) = if version == 0 then fail invalid_expected_version else ok version

unfoldable pub unquoted_version : Option Text → Result ℕ
unfolding nonzero_version
unquoted_version none = fail invalid_expected_version
unquoted_version (some digits) = nonzero_version (parse_uint digits)

unfoldable pub parse_if_match : Text → Result ℕ
unfolding quoted unquoted_version
parse_if_match value = unquoted_version (quoted value)
