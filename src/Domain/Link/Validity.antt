-- ===== src/Domain/Link/Validity.antt =====
-- The invariant of a link: both constructors establish it, and every mutation keeps it.
use url_shortner.Prelude.{ℕ, ◌↔◌, ◌≤◌, ◌<◌, ◌+◌, ◌≡◌, ◌≢◌, true, false, Option, arith}
use url_shortner.Text.{Text, is_empty, trim_space}
use url_shortner.Text.Trim.{trim_space_idem}
use url_shortner.Time.{Time, is_zero, uint64_mod}
use url_shortner.Errors.{Result, ok}
use url_shortner.Domain.Status.{LinkStatus}
use url_shortner.Domain.Status
use url_shortner.Domain.Destination.{DestinationUrl}
use url_shortner.Domain.Destination
use url_shortner.Domain.Link.{Link, new_link, rehydrate_link, expires_too_early}
use url_shortner.Domain.Link.Methods.{Mutation, to_disabled, mutate}

pub record IsValid (l : Link) : Type 0 where
  pub code_trimmed : trim_space l.code ≡ l.code
  pub code_there : is_empty l.code ≡ false
  pub destination_there : Destination.is_zero l.destination ≡ false
  pub owner_trimmed : trim_space l.owner_id ≡ l.owner_id
  pub owner_there : is_empty l.owner_id ≡ false
  pub status_named : Status.is_valid l.status ≡ true
  pub created_there : is_zero l.created_at ≡ false
  pub updated_there : is_zero l.updated_at ≡ false
  pub updated_later : l.created_at ≤ l.updated_at
  pub expires_later : expires_too_early l.expires_at l.created_at ≡ false
  pub versioned : l.version ≢ 0

-- A link that NewLink makes is valid.
pub new_link-IsValid :
    (code : Text) (d : DestinationUrl) (owner : Text) (created : Time) (expires : Option Time)
    {l : Link}
    → new_link code d owner created expires ≡ ok l
    → IsValid l
unfolding new_link Status.is_valid
new_link-IsValid code d owner created expires h =
    ground (arith, trim_space_idem code, trim_space_idem owner)

-- A link that RehydrateLink makes is valid, whatever the stored fields were.
pub rehydrate_link-IsValid :
    (code : Text) (d : DestinationUrl) (owner : Text) (status : LinkStatus) (created updated : Time)
    (expires : Option Time) (version : ℕ) {l : Link}
    → rehydrate_link code d owner status created updated expires version ≡ ok l
    → IsValid l
unfolding rehydrate_link
rehydrate_link-IsValid code d owner status created updated expires version h =
    ground (arith, trim_space_idem code, trim_space_idem owner)

-- A mutation, accepted or not, keeps the invariant; the version must not wrap round to 0.
pub mutate-IsValid :
    (m : Mutation) (at : Time) (l : Link)
    → l.version + 1 < uint64_mod
    → IsValid l
    → IsValid (mutate m at l).1
unfolding mutate Status.is_valid Status.can_transition_to expires_too_early
mutate-IsValid to_disabled at l bound v = ground arith
mutate-IsValid _ at l bound v = ground arith

-- The constructor for stored links, at the fields of a link.
abbrev pub rehydrated : Link → Result Link
rehydrated l =
    rehydrate_link l.code l.destination l.owner_id l.status l.created_at l.updated_at l.expires_at
      l.version

rehydrate_link_of-IsValid : (l : Link) → IsValid l → rehydrated l ≡ ok l
unfolding rehydrate_link
rehydrate_link_of-IsValid l v = ground arith

-- RehydrateLink gives a link back unchanged from its own fields exactly if the link is valid.
pub rehydrate_link_iff : (l : Link) → (rehydrated l ≡ ok l) ↔ IsValid l
rehydrate_link_iff l = (
  rehydrate_link-IsValid l.code l.destination l.owner_id l.status l.created_at l.updated_at
      l.expires_at l.version,
  rehydrate_link_of-IsValid l,
)
