-- ===== src/Tests/Numbers.antt =====
-- Examples on generated codes.
use url_shortner.Prelude.{
  some, ℕ, ◌≡◌, none, some, List, [], ◌∷◌, map, length, leb, take, if◌then◌else◌,
}
use url_shortner.Errors.{ok}
use url_shortner.Codegen.{generate}
use url_shortner.Codegen.Letters.{clean, stream, letters, generate-clean}

-- Two buffers of two bytes; 250 is rejected.
abbrev buffers : List (List ℕ)
buffers = (250 ∷ 7 ∷ []) ∷ (61 ∷ 62 ∷ []) ∷ []

generate-clean_example : generate 2 none (map clean buffers) ≡ (
    if leb 2 (length (stream buffers)) then some (ok (letters (take 2 (stream buffers)))) else none)
generate-clean_example = generate-clean 2 buffers
