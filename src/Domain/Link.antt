-- ===== src/Domain/Link.antt =====
-- internal/link/domain/link.go: the record, its constructors and its read methods. The copies of
-- expiration pointers that the code makes are values here. The mutating methods are in
-- Domain/Link/Methods.antt.
pub mod Methods
pub mod Validity
pub mod Lifecycle
use url_shortner.Prelude.{ℕ, Bool, false, not, ◌&&◌, Option, none, some, ◌==◌, if◌then◌else◌}
use url_shortner.Text.{Text, is_empty, trim_space}
use url_shortner.Time.{Time, is_zero, before, after}
use url_shortner.Errors.{
  Result, ok, fail_if, ◌>>=◌, ◌>>◌, empty_code, zero_destination, empty_owner_id, zero_created_at,
  invalid_expires_at, zero_updated_at, update_before_created_at, zero_version, invalid_link_status,
}
use url_shortner.Domain.Status.{LinkStatus, active}
use url_shortner.Domain.Status
use url_shortner.Domain.Destination.{DestinationUrl}
use url_shortner.Domain.Destination

pub record Link : Type 0 where
  pub code : Text
  pub destination : DestinationUrl
  pub owner_id : Text
  pub status : LinkStatus
  pub created_at : Time
  pub updated_at : Time
  pub expires_at : Option Time
  pub version : ℕ

-- `expiresAt != nil && !expiresAt.After(createdAt)`
unfoldable pub expires_too_early : Option Time → Time → Bool
expires_too_early none created_at = false
expires_too_early (some expires_at) created_at = not (after expires_at created_at)

unfoldable pub new_link : Text → DestinationUrl → Text → Time → Option Time → Result Link
unfolding expires_too_early
new_link code destination owner_id created_at expires_at = do
  let trimmed_code = trim_space code
  fail_if (is_empty trimmed_code) empty_code
  fail_if (Destination.is_zero destination) zero_destination
  let trimmed_owner_id = trim_space owner_id
  fail_if (is_empty trimmed_owner_id) empty_owner_id
  fail_if (is_zero created_at) zero_created_at
  fail_if (expires_too_early expires_at created_at) invalid_expires_at
  ok (record {
    code = trimmed_code;
    destination = destination;
    owner_id = trimmed_owner_id;
    status = active;
    created_at = created_at;
    updated_at = created_at;
    expires_at = expires_at;
    version = 1;
  })

unfoldable pub rehydrate_link :
    Text → DestinationUrl → Text → LinkStatus → Time → Time → Option Time → ℕ → Result Link
unfolding expires_too_early
rehydrate_link code destination owner_id status created_at updated_at expires_at version = do
  let trimmed_code = trim_space code
  fail_if (is_empty trimmed_code) empty_code
  fail_if (Destination.is_zero destination) zero_destination
  let trimmed_owner_id = trim_space owner_id
  fail_if (is_empty trimmed_owner_id) empty_owner_id
  fail_if (not (Status.is_valid status)) invalid_link_status
  fail_if (is_zero created_at) zero_created_at
  fail_if (is_zero updated_at) zero_updated_at
  fail_if (before updated_at created_at) update_before_created_at
  fail_if (expires_too_early expires_at created_at) invalid_expires_at
  fail_if (version == 0) zero_version
  ok (record {
    code = trimmed_code;
    destination = destination;
    owner_id = trimmed_owner_id;
    status = status;
    created_at = created_at;
    updated_at = updated_at;
    expires_at = expires_at;
    version = version;
  })

-- The test of both IsExpired methods, of a link and of a redirect mapping.
unfoldable pub expired : Option Time → Time → Bool
expired none now = false
expired (some expires_at) now = not (before now expires_at)

unfoldable pub is_expired : Link → Time → Bool
unfolding expired
is_expired l now = expired l.expires_at now

unfoldable pub can_redirect : Link → Time → Bool
unfolding is_expired
can_redirect l now =
    if is_zero now then false else Status.can_redirect l.status && not (is_expired l now)
