-- ===== src/Domain/Status.antt =====
-- internal/link/domain/status.go
pub mod Transitions
use url_shortner.Prelude.{ℕ, Bool, true, false, ◌||◌, ◌==◌, if◌then◌else◌}
use url_shortner.Text.{Text, codes, text_eq}
use url_shortner.Errors.{Result, ok, fail, invalid_link_status}

-- A uint8 with four named values. No code makes any of the values 4 to 255, which every method
-- would treat as it treats `unknown`.
pub data LinkStatus : Type 0 where
  unknown active disabled deleted : LinkStatus

-- The number behind a status.
abbrev pub number : LinkStatus → ℕ
number unknown = 0
number active = 1
number disabled = 2
number deleted = 3

-- `==` on statuses
abbrev pub status_eq : LinkStatus → LinkStatus → Bool
status_eq s t = number s == number t

unfoldable pub is_valid : LinkStatus → Bool
is_valid active = true
is_valid disabled = true
is_valid deleted = true
is_valid _ = false

unfoldable pub can_redirect : LinkStatus → Bool
can_redirect s = status_eq s active

unfoldable pub can_transition_to : LinkStatus → LinkStatus → Bool
can_transition_to active next = status_eq next disabled || status_eq next deleted
can_transition_to disabled next = status_eq next active || status_eq next deleted
can_transition_to _ next = false

unfoldable pub to_string : LinkStatus → Text
to_string active = codes "active"
to_string disabled = codes "disabled"
to_string deleted = codes "deleted"
to_string _ = codes "unknown"

unfoldable pub parse_link_status : Text → Result LinkStatus
parse_link_status value =
    if text_eq value (codes "active")
    then ok active
    else if text_eq value (codes "disabled")
    then ok disabled
    else if text_eq value (codes "deleted")
    then ok deleted
    else fail invalid_link_status
