-- ===== src/Application/Management/Change.antt =====
-- The three change requests of internal/link/application as one type, and their use cases as one.
use url_shortner.Prelude.{ℕ}
use url_shortner.Text.{Text, trim_space}
use url_shortner.Io.{Io}
use url_shortner.Net.{UrlLib}
use url_shortner.Domain.Link.{Link}
use url_shortner.Ports.{Context, LinkRepository, Clock}
use url_shortner.Application.Management.{
  ChangeLinkStatusRequest, ChangeLinkDestinationRequest, ChangeLinkExpirationRequest,
  change_link_status, change_link_destination, change_link_expiration,
}

-- One of the three change requests.
pub data ChangeRequest : Type 0 where
  status : ChangeLinkStatusRequest → ChangeRequest
  destination : ChangeLinkDestinationRequest → ChangeRequest
  expiration : ChangeLinkExpirationRequest → ChangeRequest

abbrev pub code_of : ChangeRequest → Text
code_of (status r) = trim_space r.code
code_of (destination r) = trim_space r.code
code_of (expiration r) = trim_space r.code

abbrev pub owner_of : ChangeRequest → Text
owner_of (status r) = trim_space r.owner_id
owner_of (destination r) = trim_space r.owner_id
owner_of (expiration r) = trim_space r.owner_id

abbrev pub version_of : ChangeRequest → ℕ
version_of (status r) = r.expected_version
version_of (destination r) = r.expected_version
version_of (expiration r) = r.expected_version

module _ {S : Type 0} (repository : LinkRepository S) (clock : Clock S) (lib : UrlLib) where
  unfoldable pub change : Context → ChangeRequest → Io S Link
  change ctx (status r) = change_link_status repository clock lib ctx r
  change ctx (destination r) = change_link_destination repository clock lib ctx r
  change ctx (expiration r) = change_link_expiration repository clock lib ctx r
