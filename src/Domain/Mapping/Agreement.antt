-- ===== src/Domain/Mapping/Agreement.antt =====
-- The redirect mapping of a valid link exists, holds the link's data, and decides every redirect
-- as the link does.
use url_shortner.Prelude.{◌≡◌, ◌↔◌, ◌<◌, true, false, Option, none, some, arith}
use url_shortner.Time.{Time, is_zero}
use url_shortner.Errors.{ok}
use url_shortner.Domain.Status.{active}
use url_shortner.Domain.Status
use url_shortner.Domain.Link.{Link}
use url_shortner.Domain.Link
use url_shortner.Domain.Link.Validity.{IsValid}
use url_shortner.Domain.Mapping.{RedirectMapping, redirect_mapping_from_link, can_redirect}

abbrev pub projection : Link → RedirectMapping
projection l = record {
  code = l.code;
  destination = l.destination;
  status = l.status;
  expires_at = l.expires_at;
  version = l.version;
}

-- A valid link has a mapping, with the link's code, destination, status, expiration and version.
pub redirect_mapping-IsValid :
    (l : Link) → IsValid l → redirect_mapping_from_link l ≡ ok (projection l)
unfolding redirect_mapping_from_link
redirect_mapping-IsValid l v = ground arith

-- `now` lies before the expiration, if there is one.
abbrev pub Before : Option Time → Time → Type 0
Before none now = Unit
Before (some e) now = now < e

-- A mapping redirects at a time exactly if the time is not the zero time, its status is active and
-- its expiration, if any, lies ahead.
pub can_redirect_iff :
    (m : RedirectMapping) (now : Time)
    → (can_redirect m now ≡ true)
      ↔ (is_zero now ≡ false) × (m.status ≡ active) × Before m.expires_at now
unfolding can_redirect Status.can_redirect
can_redirect_iff m now = ground arith

-- The mapping that is made of a link redirects at exactly the times at which the link does.
pub can_redirect_agrees :
    (l : Link) (m : RedirectMapping) (now : Time)
    → redirect_mapping_from_link l ≡ ok m
    → can_redirect m now ≡ Link.can_redirect l now
unfolding can_redirect redirect_mapping_from_link Link.can_redirect
can_redirect_agrees l m now h = ground arith
