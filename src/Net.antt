-- ===== src/Net.antt =====
-- What the program uses of net/url and of Go's Unicode tables, as a parameter: the parts of a
-- parsed URL that it reads or assigns, the two parsers, the printer, and unicode.ToLower beyond
-- ASCII.
use url_shortner.Prelude.{ℕ, ◌≡◌, ◌≢◌, ◌≤◌, Option, some, []}
use url_shortner.Text.{Text, trim_space, to_lower, to_lower_rune}

-- url.URL; `rest` stands for the fields that the program neither reads nor assigns.
pub record Url : Type 0 where
  pub scheme : Text
  pub host : Text
  pub raw_query : Text
  pub fragment : Text
  pub rest : Text

pub record UrlLib : Type 0 where
  pub parse_request_uri : Text → Option Url
  pub parse : Text → Option Url
  pub to_string : Url → Text
  pub lower_beyond : ℕ → ℕ

-- A URL with its scheme and its host in lower case.
abbrev pub lowered : UrlLib → Url → Url
lowered lib u = record u {
  scheme = to_lower lib.lower_beyond u.scheme;
  host = to_lower lib.lower_beyond u.host;
}

-- Documented behaviour of net/url and unicode: URL.String begins with a scheme that is there; what
-- it prints for a parsed URL with a lower-case scheme and host has no white space round it, and
-- parses again to a URL with the same scheme, host and printed form; lower case is final.
pub record UrlLaws (lib : UrlLib) : Type 0 where
  pub string_scheme : (u : Url) → u.scheme ≢ [] → lib.to_string u ≢ []
  pub string_trimmed :
      (raw : Text) (u : Url)
      → lib.parse_request_uri (trim_space raw) ≡ some u
      → trim_space (lib.to_string (lowered lib u)) ≡ lib.to_string (lowered lib u)
  pub reparse :
      (raw : Text) (u : Url)
      → lib.parse_request_uri (trim_space raw) ≡ some u
      → (v : Url) × (lib.parse_request_uri (lib.to_string (lowered lib u)) ≡ some v)
        × (v.scheme ≡ (lowered lib u).scheme)
        × (v.host ≡ (lowered lib u).host)
        × (lib.to_string v ≡ lib.to_string (lowered lib u))
  pub lower_final :
      (c : ℕ) → 128 ≤ c → to_lower_rune lib.lower_beyond (lib.lower_beyond c) ≡ lib.lower_beyond c
