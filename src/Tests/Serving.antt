-- ===== src/Tests/Serving.antt =====
-- Examples on the HTTP handlers for management and on what the cache reads back.
use url_shortner.Text.Decimal.{parse_uint}
use url_shortner.Domain.Link.Methods.{disable}
use url_shortner.Memory.Repository.{find_by_code, update}
use url_shortner.Application.Management.{change_link_status, owned_link, status_method}
use url_shortner.Prelude.Maps.{lookup}
use url_shortner.Tests.Requests.{world-IsSound, off}
use url_shortner.Http.Patch.Once.{patch_once}
use url_shortner.Prelude.{◌≢◌, ◌+◌, ◌≡◌, refl, Option, none, some, arith}
use url_shortner.Text.{
  to_lower_rune, is_space, text_eq, is_empty, to_lower, trim_space, trim_right, trim_left, Text,
  codes, text_eq, is_empty,
}
use url_shortner.Time.{is_zero, zero_time, unix_epoch, Time}
use url_shortner.Errors.{ok}
use url_shortner.Http.{
  shown, quoted, up_to_quote, unquoted_version, nonzero_version, parse_if_match,
}
use url_shortner.Http.Etag.{managed_link_response}
use url_shortner.Http.Patch.{
  patch_version, patch_body, provided_fields, patch_field, patch_status, respond, PatchRequest,
  patch,
}
use url_shortner.Http.Patch.Refusals.{Answered, patch-Answered}
use url_shortner.Domain.Status.{can_transition_to, parse_link_status, active}
use url_shortner.Domain.Status
use url_shortner.Domain.Destination.{new_destination_url}
use url_shortner.Domain.Destination
use url_shortner.Domain.Mapping.{RedirectMapping, new_redirect_mapping}
use url_shortner.Redis.{hash_fields, arguments}
use url_shortner.Redis.Decode.{decode}
use url_shortner.Redis.Decode.RoundTrip.{to_millisecond, decode-arguments}
use url_shortner.Tests.World.{home, lib, world, links, links_laws, clock, clock_laws}

abbrev no_times : Text → Option Time
no_times t = none

-- A request to disable the link.
abbrev switch_off : PatchRequest
switch_off = record {
  owner_header = codes " ann ";
  if_match_header = codes "\"1\"";
  code = codes "0";
  body = some (record { status = some (codes "Disabled"); destination = none; expires_at = none });
}

patch-Answered_example :
    Answered links clock lib no_times links_laws clock_laws none switch_off world
      (patch links clock lib no_times none switch_off world)
patch-Answered_example =
    patch-Answered links clock lib no_times links_laws clock_laws none switch_off world

-- A mapping that expires one and a half milliseconds into 1970.
abbrev stored : RedirectMapping
stored = record {
  code = codes "0";
  destination = home;
  status = active;
  expires_at = some (unix_epoch + 1_500_000);
  version = 3;
}

decode-arguments_example :
    decode lib (codes "0") (hash_fields (arguments stored 1000))
    ≡ ok (record stored { expires_at = to_millisecond stored.expires_at })
unfolding new_destination_url new_redirect_mapping trim_space trim_left trim_right is_space is_empty
    to_lower to_lower_rune text_eq Status.is_valid Destination.is_zero unix_epoch
decode-arguments_example =
    decode-arguments lib stored 1000 refl refl (omega arith) (omega arith, omega arith)

switched : (patch links clock lib no_times none switch_off world).0 ≡ shown off
unfolding patch patch_version patch_body provided_fields patch_field patch_status respond
    change_link_status owned_link is_empty trim_space trim_right trim_left is_space find_by_code
    lookup text_eq status_method disable is_zero zero_time can_transition_to update to_lower
    to_lower_rune parse_if_match quoted up_to_quote unquoted_version nonzero_version parse_uint
    parse_link_status
switched = refl

patch_once_example :
    (parse_if_match (managed_link_response off).etag_header ≡ ok 2)
    × ((patch links clock lib no_times none switch_off
          (patch links clock lib no_times none switch_off world).1).0
        ≢ shown off)
unfolding parse_if_match quoted up_to_quote unquoted_version nonzero_version parse_uint is_empty
    trim_space trim_right trim_left is_space
patch_once_example =
    patch_once links clock lib no_times links_laws clock_laws none none switch_off switch_off world
      off off 1 world-IsSound switched refl (omega arith) refl refl
