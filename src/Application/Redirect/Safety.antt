-- ===== src/Application/Redirect/Safety.antt =====
-- A redirect is never made for a link that is disabled, deleted or expired.
use url_shortner.Prelude.{◌≡◌, arith}
use url_shortner.Errors.{ok}
use url_shortner.Io.Inversion.{bind-ok}
use url_shortner.Domain.Status.{active}
use url_shortner.Domain.Mapping.{RedirectMapping}
use url_shortner.Domain.Mapping.Agreement.{Before, can_redirect_iff}
use url_shortner.Ports.{Context, Clock, LinkResolver}
use url_shortner.Application.Redirect.{RedirectLinkRequest, RedirectLinkResult, redirect_link}

module _ {S : Type 0} (resolver : LinkResolver S) (clock : Clock S) where
  -- A redirect that succeeds goes to the destination of the mapping that the resolver gave, and at
  -- the clock reading that mapping was active and not yet expired.
  pub redirect_ok :
      (ctx : Context) (request : RedirectLinkRequest) (s : S) (result : RedirectLinkResult)
      → (redirect_link resolver clock ctx request s).0 ≡ ok result
      → (m : RedirectMapping) × ((resolver.resolve ctx request.code s).0 ≡ ok m)
        × (result.destination ≡ m.destination.value)
        × (m.status ≡ active)
        × Before m.expires_at (clock.now (resolver.resolve ctx request.code s).1).0
  unfolding redirect_link
  redirect_ok ctx request s result h =
      let (m, found, rest, _) = bind-ok (resolver.resolve ctx request.code) _ s h in
      let now = (clock.now (resolver.resolve ctx request.code s).1).0 in
      let (_, is_active, ahead) = (can_redirect_iff m now).0 (ground arith) in
      (m, found, ground arith, is_active, ahead)
