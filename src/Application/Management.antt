-- ===== src/Application/Management.antt =====
-- internal/link/application: get_managed_link.go, change_link_status.go,
-- change_link_destination.go and change_link_expiration.go, over any repository and clock.
pub mod Change
pub mod Parts
pub mod Outcome
pub mod Locking
pub mod Success
use url_shortner.Prelude.{ℕ, Option, none, some, not, ◌==◌}
use url_shortner.Text.{Text, text_eq, is_empty, trim_space}
use url_shortner.Time.{Time}
use url_shortner.Errors.{
  Result, ok, err, sentinel, fail_if, link_access_denied, invalid_expected_version,
  version_conflict, invalid_link_status,
}
use url_shortner.Io.{Io, pure, raise, lift, ◌>>=◌, ◌>>◌}
use url_shortner.Net.{UrlLib}
use url_shortner.Domain.Status.{LinkStatus, unknown, active, disabled, deleted}
use url_shortner.Domain.Destination.{new_destination_url}
use url_shortner.Domain.Link.{Link}
use url_shortner.Domain.Link.Methods.{
  disable, reactivate, delete, update_destination, set_expiration, clear_expiration,
}
use url_shortner.Ports.{Context, LinkRepository, Clock, current_time}

pub record GetManagedLinkRequest : Type 0 where
  pub code : Text
  pub owner_id : Text

pub record ChangeLinkStatusRequest : Type 0 where
  pub code : Text
  pub owner_id : Text
  pub status : LinkStatus
  pub expected_version : ℕ

pub record ChangeLinkDestinationRequest : Type 0 where
  pub code : Text
  pub owner_id : Text
  pub destination : Text
  pub expected_version : ℕ

pub record ChangeLinkExpirationRequest : Type 0 where
  pub code : Text
  pub owner_id : Text
  pub expires_at : Option Time
  pub expected_version : ℕ

-- A method call on a local variable `link`, followed by a return on its error.
abbrev pub method_call : Io Link (Unit {0}) → Link → Result Link
method_call method link =
    let (r, link') = method link in elim r [ ok done ↦ ok link' | err e ↦ err e ]

-- `switch request.Status`
unfoldable pub status_method : LinkStatus → Time → Io Link (Unit {0})
status_method active now = reactivate now
status_method disabled now = disable now
status_method deleted now = delete now
status_method unknown now = raise (sentinel invalid_link_status)

-- The test on request.ExpiresAt.
unfoldable pub expiration_method : Option Time → Time → Io Link (Unit {0})
expiration_method none now = clear_expiration now
expiration_method (some expires_at) now = set_expiration expires_at now

module _ {S : Type 0} (repository : LinkRepository S) (clock : Clock S) (lib : UrlLib) where
  unfoldable pub get_managed_link : Context → GetManagedLinkRequest → Io S Link
  get_managed_link ctx request = do
    let owner_id = trim_space request.owner_id
    lift (fail_if (is_empty owner_id) link_access_denied)
    link ← repository.find_by_code ctx (trim_space request.code)
    lift (fail_if (not (text_eq link.owner_id owner_id)) link_access_denied)
    pure link

  -- The part that the three Execute methods have in common, up to the version check.
  unfoldable pub owned_link : Context → Text → Text → ℕ → Io S Link
  owned_link ctx code owner expected_version = do
    let owner_id = trim_space owner
    lift (fail_if (is_empty owner_id) link_access_denied)
    lift (fail_if (expected_version == 0) invalid_expected_version)
    link ← repository.find_by_code ctx (trim_space code)
    lift (fail_if (not (text_eq link.owner_id owner_id)) link_access_denied)
    lift (fail_if (not (link.version == expected_version)) version_conflict)
    pure link

  unfoldable pub change_link_status : Context → ChangeLinkStatusRequest → Io S Link
  change_link_status ctx request = do
    link ← owned_link ctx request.code request.owner_id request.expected_version
    now ← current_time clock
    changed ← lift (method_call (status_method request.status now) link)
    repository.update ctx changed request.expected_version
    pure changed

  unfoldable pub change_link_destination : Context → ChangeLinkDestinationRequest → Io S Link
  change_link_destination ctx request = do
    link ← owned_link ctx request.code request.owner_id request.expected_version
    destination ← lift (new_destination_url lib request.destination)
    now ← current_time clock
    changed ← lift (method_call (update_destination destination now) link)
    repository.update ctx changed request.expected_version
    pure changed

  unfoldable pub change_link_expiration : Context → ChangeLinkExpirationRequest → Io S Link
  change_link_expiration ctx request = do
    link ← owned_link ctx request.code request.owner_id request.expected_version
    now ← current_time clock
    changed ← lift (method_call (expiration_method request.expires_at now) link)
    repository.update ctx changed request.expected_version
    pure changed
