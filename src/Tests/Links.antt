-- ===== src/Tests/Links.antt =====
-- Examples on links: their invariant, their lifecycle and their destinations.
use url_shortner.Prelude.{◌≡◌, ◌↔◌, refl, List, [], ◌∷◌, arith}
use url_shortner.Text.{trim_space, trim_left, trim_right, is_space, is_empty}
use url_shortner.Time.{Time, is_zero, zero_time}
use url_shortner.Errors.{ok}
use url_shortner.Domain.Status.{LinkStatus, active, disabled, deleted, parse_link_status}
use url_shortner.Domain.Status
use url_shortner.Domain.Destination.{DestinationUrl, new_destination_url}
use url_shortner.Domain.Destination
use url_shortner.Domain.Link.{Link, expires_too_early}
use url_shortner.Domain.Link.Methods.{
  Mutation, to_disabled, to_active, to_deleted, to_destination, to_expiration, mutate,
}
use url_shortner.Domain.Link.Validity.{IsValid}
use url_shortner.Domain.Link.Lifecycle.{Allowed, run, mutate_ok_iff, run_same_version, run-IsValid}
use url_shortner.Tests.World.{home, link}

pub link-IsValid : IsValid link
unfolding trim_space trim_left trim_right is_space is_empty is_zero zero_time expires_too_early
    Destination.is_zero Status.is_valid
link-IsValid = record {
  code_trimmed = refl;
  code_there = refl;
  destination_there = refl;
  owner_trimmed = refl;
  owner_there = refl;
  status_named = refl;
  created_there = refl;
  updated_there = refl;
  updated_later = omega arith;
  expires_later = refl;
  versioned = λ e. omega arith;
}

mutate_ok_iff_example : ((mutate to_deleted 5 link).0 ≡ ok tt) ↔ Allowed to_deleted 5 link
mutate_ok_iff_example = mutate_ok_iff to_deleted 5 link

abbrev switches : List (Mutation × Time)
switches = (to_disabled, 5) ∷ (to_destination home, 6) ∷ (to_active, 7) ∷ []

abbrev too_early : List (Mutation × Time)
too_early = (to_disabled, 2) ∷ (to_expiration 3, 4) ∷ []

abbrev gone : Link
gone = record link { status = deleted }

run_same_version_example : run too_early link ≡ link
unfolding run mutate is_zero zero_time
run_same_version_example = run_same_version too_early link (omega arith) refl

run-IsValid_example : IsValid (run switches link)
run-IsValid_example = run-IsValid switches link (omega arith) link-IsValid
