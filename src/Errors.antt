-- ===== src/Errors.antt =====
-- Go errors. A sentinel is one of the package-level `errors.New` values of the program; any other
-- error (of a context, a driver, a reader, a decoder) is `foreign`; `wrapped` is fmt.Errorf with
-- %w, `joined` is errors.Join. `is` is errors.Is.
use url_shortner.Prelude.{ℕ, ◌≡◌, ◌⊎◌, inl, inr, refl, Bool, true, false, ◌||◌, ◌==◌}

pub data Sentinel : Type 0 where
  empty_code zero_destination empty_owner_id zero_created_at invalid_expires_at : Sentinel
  invalid_transition zero_updated_at update_before_created_at : Sentinel
  update_not_after_previous deleted_link unchanged_destination unchanged_expiration : Sentinel
  no_expiration zero_version invalid_link_status : Sentinel
  empty_destination malformed_destination unsupported_scheme missing_host : Sentinel
  link_not_found link_already_exists version_conflict : Sentinel
  idempotency_key_not_found idempotency_key_conflict redirect_cache_miss : Sentinel
  link_access_denied link_unavailable invalid_expected_version : Sentinel
  code_generation_exhausted : Sentinel
  analytics_empty_code analytics_zero_occurred_at : Sentinel

pub data Error : Type 0 where
  sentinel : Sentinel → Error
  foreign : ℕ → Error
  wrapped : Error → Error
  joined : Error → Error → Error

-- Each `errors.New` value is a pointer of its own: two are equal exactly if they are one.
abbrev pub identity : Sentinel → ℕ
identity empty_code = 0
identity zero_destination = 1
identity empty_owner_id = 2
identity zero_created_at = 3
identity invalid_expires_at = 4
identity invalid_transition = 5
identity zero_updated_at = 6
identity update_before_created_at = 7
identity update_not_after_previous = 8
identity deleted_link = 9
identity unchanged_destination = 10
identity unchanged_expiration = 11
identity no_expiration = 12
identity zero_version = 13
identity invalid_link_status = 14
identity empty_destination = 15
identity malformed_destination = 16
identity unsupported_scheme = 17
identity missing_host = 18
identity link_not_found = 19
identity link_already_exists = 20
identity version_conflict = 21
identity idempotency_key_not_found = 22
identity idempotency_key_conflict = 23
identity redirect_cache_miss = 24
identity link_access_denied = 25
identity link_unavailable = 26
identity invalid_expected_version = 27
identity code_generation_exhausted = 28
identity analytics_empty_code = 29
identity analytics_zero_occurred_at = 30

-- errors.Is, which unwraps and looks into joined errors.
unfoldable pub is : Error → Sentinel → Bool
is (sentinel s) target = identity s == identity target
is (foreign n) target = false
is (wrapped e) target = is e target
is (joined e f) target = is e target || is f target

-- The pair (value, error) of a Go function whose value is not used beside an error.
pub data Result {ℓ} (A : Type ℓ) : Type ℓ where
  err : Error → Result A
  ok : A → Result A

abbrev pub fail {ℓ} : {A : Type ℓ} → Sentinel → Result A
fail s = err (sentinel s)

-- The early return on `err != nil`, with the value and without one.
module _ {ℓ κ} {A : Type ℓ} {B : Type κ} where
  infixl 5 ◌>>=◌ ◌>>◌
  abbrev pub ◌>>=◌ : Result A → (A → Result B) → Result B
  err e >>= next = err e
  ok value >>= next = next value

  abbrev pub ◌>>◌ : Result A → Result B → Result B
  first >> second = first >>= λ _. second

-- `fmt.Errorf("...: %w", err)`
abbrev pub wrap {ℓ} : {A : Type ℓ} → Result A → Result A
wrap (ok a) = ok a
wrap (err e) = err (wrapped e)

-- `if cond { return err }`
abbrev pub fail_if : Bool → Sentinel → Result (Unit {0})
fail_if true s = fail s
fail_if false s = ok tt

abbrev pub IsOk {ℓ} : {A : Type ℓ} → Result A → Type 0
IsOk (ok a) = Unit
IsOk (err e) = ⊥

pub Result-cases {ℓ} :
    {A : Type ℓ} (r : Result A) → ((a : A) × (r ≡ ok a)) ⊎ ((e : Error) × (r ≡ err e))
Result-cases (ok a) = inl (a, refl)
Result-cases (err e) = inr (e, refl)
