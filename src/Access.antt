-- ===== src/Access.antt =====
-- The token check of internal/health/health.go, which internal/metrics/recorder.go repeats. SHA-256
-- is a parameter; subtle.ConstantTimeCompare is equality on digests, which have one length.
pub mod Tokens
use url_shortner.Prelude.{
  ℕ, Bool, true, false, ◌||◌, Option, none, some, [], ◌∷◌, ◌==◌, if◌then◌else◌,
}
use url_shortner.Text.{Text, codes, text_eq, is_empty, trim_space}

-- The headers that carry a token; one that is not there is empty.
pub record TokenHeaders : Type 0 where
  pub diagnostics_token : Text
  pub admin_token : Text
  pub authorization : Text

-- strings.CutPrefix(s, prefix), with the prefix first; `none` for a text without it
unfoldable pub cut_prefix : Text → Text → Option Text
cut_prefix [] s = some s
cut_prefix (p ∷ prefix) [] = none
cut_prefix (p ∷ prefix) (c ∷ s) = let rest = cut_prefix prefix s in if c == p then rest else none

module _ (sha256 : Text → Text) where
  unfoldable pub token_matches : Text → Text → Bool
  token_matches actual expected =
      if is_empty actual || is_empty expected
      then false
      else text_eq (sha256 actual) (sha256 expected)

  unfoldable pub bearer_matches : Option Text → Text → Bool
  bearer_matches none expected = false
  bearer_matches (some bearer_token) expected = token_matches (trim_space bearer_token) expected

  unfoldable pub authorized : TokenHeaders → Text → Bool
  authorized r expected =
      if token_matches r.diagnostics_token expected
      then true
      else if token_matches r.admin_token expected
      then true
      else bearer_matches (cut_prefix (codes "Bearer ") (trim_space r.authorization)) expected
