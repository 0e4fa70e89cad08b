-- ===== src/Domain/Status/Transitions.antt =====
-- The status graph, and the text form of a status.
use url_shortner.Prelude.{◌≡◌, ◌↔◌, refl, true, arith}
use url_shortner.Text.{Text, codes, text_eq, text_eq_iff}
use url_shortner.Errors.{ok}
use url_shortner.Domain.Status.{
  LinkStatus, unknown, active, disabled, deleted, is_valid, can_transition_to, to_string,
  parse_link_status,
}

-- The edges of the lifecycle graph as it is documented.
pub data Edge : LinkStatus → LinkStatus → Type 0 where
  disable : Edge active disabled
  delete_active : Edge active deleted
  reactivate : Edge disabled active
  delete_disabled : Edge disabled deleted

Edge→allowed : {s t : LinkStatus} → Edge s t → can_transition_to s t ≡ true
unfolding can_transition_to
Edge→allowed disable = refl
Edge→allowed delete_active = refl
Edge→allowed reactivate = refl
Edge→allowed delete_disabled = refl

allowed→Edge : (s t : LinkStatus) → can_transition_to s t ≡ true → Edge s t
unfolding can_transition_to
allowed→Edge active disabled h = disable
allowed→Edge active deleted h = delete_active
allowed→Edge disabled active h = reactivate
allowed→Edge disabled deleted h = delete_disabled
allowed→Edge active active h = absurd (ground arith)
allowed→Edge active unknown h = absurd (ground arith)
allowed→Edge disabled disabled h = absurd (ground arith)
allowed→Edge disabled unknown h = absurd (ground arith)
allowed→Edge unknown t h = absurd (ground arith)
allowed→Edge deleted t h = absurd (ground arith)

-- `can_transition_to` says true exactly on the four edges of the documented lifecycle: active and
-- disabled lead to each other and to deleted, and deleted and unknown lead nowhere.
pub can_transition_to_iff : (s t : LinkStatus) → (can_transition_to s t ≡ true) ↔ Edge s t
can_transition_to_iff s t = (allowed→Edge s t, Edge→allowed)

parsed :
    (value : Text) (s : LinkStatus)
    → parse_link_status value ≡ ok s
    → (is_valid s ≡ true) × (to_string s ≡ value)
unfolding parse_link_status is_valid to_string
parsed value s h = ground (
  arith,
  text_eq_iff value (codes "active"),
  text_eq_iff value (codes "disabled"),
  text_eq_iff value (codes "deleted"),
)

parse-to_string : (s : LinkStatus) → is_valid s ≡ true → parse_link_status (to_string s) ≡ ok s
unfolding parse_link_status is_valid to_string text_eq
parse-to_string active h = refl
parse-to_string disabled h = refl
parse-to_string deleted h = refl
parse-to_string unknown h = absurd (ground arith)

-- A text parses to a status exactly if the status is valid and the text is its own text form.
pub parse_link_status_iff :
    (value : Text) (s : LinkStatus)
    → (parse_link_status value ≡ ok s) ↔ (is_valid s ≡ true) × (to_string s ≡ value)
parse_link_status_iff value s = (parsed value s, λ h. rw (← h.1) (parse-to_string s h.0))
