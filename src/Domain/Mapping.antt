-- ===== src/Domain/Mapping.antt =====
-- internal/link/domain/redirect_mapping.go
pub mod Agreement
use url_shortner.Prelude.{ℕ, Bool, false, not, ◌&&◌, Option, ◌==◌, if◌then◌else◌}
use url_shortner.Text.{Text, is_empty, trim_space}
use url_shortner.Time.{Time, is_zero}
use url_shortner.Errors.{
  Result, ok, fail_if, ◌>>=◌, ◌>>◌, empty_code, zero_destination, zero_version, invalid_link_status,
}
use url_shortner.Domain.Status.{LinkStatus}
use url_shortner.Domain.Status
use url_shortner.Domain.Destination.{DestinationUrl}
use url_shortner.Domain.Destination
use url_shortner.Domain.Link.{Link, expired}

pub record RedirectMapping : Type 0 where
  pub code : Text
  pub destination : DestinationUrl
  pub status : LinkStatus
  pub expires_at : Option Time
  pub version : ℕ

unfoldable pub new_redirect_mapping :
    Text → DestinationUrl → LinkStatus → Option Time → ℕ → Result RedirectMapping
new_redirect_mapping raw_code destination status expires_at version = do
  let code = trim_space raw_code
  fail_if (is_empty code) empty_code
  fail_if (Destination.is_zero destination) zero_destination
  fail_if (not (Status.is_valid status)) invalid_link_status
  fail_if (version == 0) zero_version
  ok (record {
    code = code;
    destination = destination;
    status = status;
    expires_at = expires_at;
    version = version;
  })

unfoldable pub redirect_mapping_from_link : Link → Result RedirectMapping
unfolding new_redirect_mapping
redirect_mapping_from_link l =
    new_redirect_mapping l.code l.destination l.status l.expires_at l.version

unfoldable pub is_expired : RedirectMapping → Time → Bool
unfolding expired
is_expired m now = expired m.expires_at now

unfoldable pub can_redirect : RedirectMapping → Time → Bool
unfolding is_expired
can_redirect m now =
    if is_zero now then false else Status.can_redirect m.status && not (is_expired m now)
