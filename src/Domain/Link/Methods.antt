-- ===== src/Domain/Link/Methods.antt =====
-- internal/link/domain/link.go: the methods with a pointer receiver, as actions on the link. Each
-- assignment is a step, in the order of the code.
use url_shortner.Prelude.{◌+◌, ◌%◌, Bool, true, false, not, Option, none, some, if◌then◌else◌}
use url_shortner.Time.{Time, is_zero, before, after, equal, uint64_mod}
use url_shortner.Errors.{
  Result, fail, fail_if, zero_destination, invalid_expires_at, invalid_transition, zero_updated_at,
  update_before_created_at, update_not_after_previous, deleted_link, unchanged_destination,
  unchanged_expiration, no_expiration,
}
use url_shortner.Io.{Io, get, assign, lift, ◌>>=◌, ◌>>◌}
use url_shortner.Domain.Status.{LinkStatus, active, disabled, deleted, status_eq, can_transition_to}
use url_shortner.Domain.Destination.{DestinationUrl, same}
use url_shortner.Domain.Destination
use url_shortner.Domain.Link.{Link}

-- `l.version++` on a uint64
abbrev increment : Io Link (Unit {0})
increment = assign (λ l. record l { version = (l.version + 1) % uint64_mod })

unfoldable pub validate_mutation_time : Link → Time → Result (Unit {0})
validate_mutation_time l at =
    if is_zero at
    then fail zero_updated_at
    else if before at l.created_at
    then fail update_before_created_at
    else fail_if (not (after at l.updated_at)) update_not_after_previous

unfoldable pub transition_to : LinkStatus → Time → Io Link (Unit {0})
unfolding validate_mutation_time
transition_to next at = do
  l ← get
  lift (validate_mutation_time l at)
  lift (fail_if (not (can_transition_to l.status next)) invalid_transition)
  assign (λ l. record l { status = next })
  assign (λ l. record l { updated_at = at })
  increment

unfoldable pub disable : Time → Io Link (Unit {0})
unfolding transition_to
disable at = transition_to disabled at

unfoldable pub reactivate : Time → Io Link (Unit {0})
unfolding transition_to
reactivate at = transition_to active at

unfoldable pub delete : Time → Io Link (Unit {0})
unfolding transition_to
delete at = transition_to deleted at

unfoldable pub update_destination : DestinationUrl → Time → Io Link (Unit {0})
unfolding validate_mutation_time
update_destination destination at = do
  l ← get
  lift (fail_if (Destination.is_zero destination) zero_destination)
  lift (fail_if (status_eq l.status deleted) deleted_link)
  lift (fail_if (same l.destination destination) unchanged_destination)
  lift (validate_mutation_time l at)
  assign (λ l. record l { destination = destination })
  assign (λ l. record l { updated_at = at })
  increment

-- `l.expiresAt != nil && expiresAt.Equal(*l.expiresAt)`
unfoldable pub expires_already_at : Option Time → Time → Bool
expires_already_at none expires_at = false
expires_already_at (some current) expires_at = equal expires_at current

unfoldable pub set_expiration : Time → Time → Io Link (Unit {0})
unfolding validate_mutation_time expires_already_at
set_expiration expires_at at = do
  l ← get
  lift (fail_if (is_zero expires_at) invalid_expires_at)
  lift (fail_if (status_eq l.status deleted) deleted_link)
  lift (fail_if (not (after expires_at at)) invalid_expires_at)
  lift (fail_if (expires_already_at l.expires_at expires_at) unchanged_expiration)
  lift (validate_mutation_time l at)
  assign (λ l. record l { expires_at = some expires_at })
  assign (λ l. record l { updated_at = at })
  increment

-- `l.expiresAt == nil`
unfoldable pub never_expires : Option Time → Bool
never_expires none = true
never_expires (some t) = false

unfoldable pub clear_expiration : Time → Io Link (Unit {0})
unfolding validate_mutation_time never_expires
clear_expiration at = do
  l ← get
  lift (fail_if (status_eq l.status deleted) deleted_link)
  lift (fail_if (never_expires l.expires_at) no_expiration)
  lift (validate_mutation_time l at)
  assign (λ l. record l { expires_at = none })
  assign (λ l. record l { updated_at = at })
  increment

-- A call of one of the mutating methods.
pub data Mutation : Type 0 where
  to_disabled to_active to_deleted : Mutation
  to_destination : DestinationUrl → Mutation
  to_expiration : Time → Mutation
  to_no_expiration : Mutation

unfoldable pub mutate : Mutation → Time → Io Link (Unit {0})
unfolding disable reactivate delete update_destination set_expiration clear_expiration
mutate to_disabled at = disable at
mutate to_active at = reactivate at
mutate to_deleted at = delete at
mutate (to_destination d) at = update_destination d at
mutate (to_expiration e) at = set_expiration e at
mutate to_no_expiration at = clear_expiration at
