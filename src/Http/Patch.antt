-- ===== src/Http/Patch.antt =====
-- internal/link/adapters/httpapi/management_handler.go: the handlers Get and Patch, in the order of
-- their early returns.
pub mod Refusals
pub mod Once
use url_shortner.Prelude.{ℕ, ◌+◌, Option, none, some, ◌==◌, if◌then◌else◌}
use url_shortner.Text.{Text, codes, text_eq, is_empty, trim_space, to_lower}
use url_shortner.Time.{Time}
use url_shortner.Errors.{Error, Result, ok, err}
use url_shortner.Net.{UrlLib}
use url_shortner.Domain.Status.{LinkStatus, parse_link_status}
use url_shortner.Domain.Link.{Link}
use url_shortner.Ports.{Context, LinkRepository, Clock}
use url_shortner.Application.Management.{
  get_managed_link, change_link_status, change_link_destination, change_link_expiration,
}
use url_shortner.Http.{
  Response, refused, shown, get_error_code, mutation_error_code, parse_if_match,
}

-- patchLinkHTTPRequest, as the decoder leaves it; a raw message is its text.
pub record PatchBody : Type 0 where
  pub status : Option Text
  pub destination : Option Text
  pub expires_at : Option Text

-- What Patch reads of a request; no body is one that does not decode.
pub record PatchRequest : Type 0 where
  pub owner_header : Text
  pub if_match_header : Text
  pub code : Text
  pub body : Option PatchBody

abbrev pub given : Option Text → ℕ
given none = 0
given (some t) = 1

unfoldable pub provided_fields : PatchBody → ℕ
provided_fields body = given body.status + given body.destination + given body.expires_at

-- `json.Unmarshal(trimmed, &expiresAt)`
abbrev pub some_time : Option Time → Option (Option Time)
some_time none = none
some_time (some t) = some (some t)

-- parseExpiresAt, over the decoder of timestamps
unfoldable pub parse_expires_at : (Text → Option Time) → Text → Option (Option Time)
parse_expires_at parse_time raw =
    if text_eq (trim_space raw) (codes "null")
    then some none
    else some_time (parse_time (trim_space raw))

module _ {S : Type 0} where
  abbrev pub refuse : ℕ → S → Response × S
  refuse n s = (refused n, s)

  -- The end of both handlers.
  unfoldable pub respond : (Error → ℕ) → Result Link × S → Response × S
  respond error_code (ok link, s) = (shown link, s)
  respond error_code (err e, s) = (refused (error_code e), s)

module _ {S : Type 0} (repository : LinkRepository S) (clock : Clock S) (lib : UrlLib)
    (parse_time : Text → Option Time) (ctx : Context) where
  unfoldable pub get : Text → Text → S → Response × S
  unfolding respond
  get owner_header code s =
      let owner_id = trim_space owner_header in
      if is_empty owner_id
      then refuse 401 s
      else respond get_error_code (
          get_managed_link repository clock lib ctx (record { code = code; owner_id = owner_id }) s)

  module _ (owner_id code : Text) (expected_version : ℕ) where
    unfoldable pub patch_status : Result LinkStatus → S → Response × S
    patch_status (err e) s = refuse 400 s
    patch_status (ok status) s = respond mutation_error_code (
        change_link_status repository clock lib ctx
          (record {
            code = code;
            owner_id = owner_id;
            status = status;
            expected_version = expected_version;
          })
          s)

    unfoldable pub patch_destination : Text → S → Response × S
    patch_destination destination s = respond mutation_error_code (
        change_link_destination repository clock lib ctx
          (record {
            code = code;
            owner_id = owner_id;
            destination = destination;
            expected_version = expected_version;
          })
          s)

    unfoldable pub patch_expiration : Option (Option Time) → S → Response × S
    patch_expiration none s = refuse 400 s
    patch_expiration (some expires_at) s = respond mutation_error_code (
        change_link_expiration repository clock lib ctx
          (record {
            code = code;
            owner_id = owner_id;
            expires_at = expires_at;
            expected_version = expected_version;
          })
          s)

    -- The switch on the fields that are there; the last clause is not reached.
    unfoldable pub patch_field : Option Text → Option Text → Option Text → S → Response × S
    patch_field (some status) destination expires_at =
        patch_status (parse_link_status (to_lower lib.lower_beyond (trim_space status)))
    patch_field none (some destination) expires_at = patch_destination destination
    patch_field none none (some raw) = patch_expiration (parse_expires_at parse_time raw)
    patch_field none none none = refuse 400

    unfoldable pub patch_body : Option PatchBody → S → Response × S
    patch_body none s = refuse 400 s
    patch_body (some body) s =
        if provided_fields body == 1
        then patch_field body.status body.destination body.expires_at s
        else refuse 400 s

  unfoldable pub patch_version : Text → PatchRequest → Result ℕ → S → Response × S
  patch_version owner_id request (err e) s = refuse 400 s
  patch_version owner_id request (ok expected_version) s =
      patch_body owner_id request.code expected_version request.body s

  unfoldable pub patch : PatchRequest → S → Response × S
  patch request s =
      let owner_id = trim_space request.owner_header in
      let if_match = trim_space request.if_match_header in
      if is_empty owner_id
      then refuse 401 s
      else if is_empty if_match
      then refuse 428 s
      else patch_version owner_id request (parse_if_match if_match) s
