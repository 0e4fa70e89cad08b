-- ===== src/Application/Redirect.antt =====
-- internal/link/application/redirect_link.go
pub mod Safety
pub mod Journey
use url_shortner.Prelude.{not}
use url_shortner.Text.{Text}
use url_shortner.Errors.{fail_if, link_unavailable}
use url_shortner.Io.{Io, pure, lift, ◌>>=◌, ◌>>◌}
use url_shortner.Domain.Mapping.{can_redirect}
use url_shortner.Ports.{Context, Clock, LinkResolver, current_time}

pub record RedirectLinkRequest : Type 0 where
  pub code : Text

pub record RedirectLinkResult : Type 0 where
  pub destination : Text

unfoldable pub redirect_link :
    {S : Type 0}
    → LinkResolver S
    → Clock S
    → Context
    → RedirectLinkRequest
    → Io S RedirectLinkResult
redirect_link resolver clock ctx request = do
  mapping ← resolver.resolve ctx request.code
  now ← current_time clock
  lift (fail_if (not (can_redirect mapping now)) link_unavailable)
  pure (record { destination = mapping.destination.value })
