-- ===== src/Codegen.antt =====
-- internal/link/adapters/codegen/base62.go. The context and the reader answer anew in each round of
-- the loop; a run is a list of those answers, and a run that the list does not finish is `none`.
pub mod Letters
pub mod Unbiased
use url_shortner.Prelude.{
  ℕ, ◌-◌, ◌%◌, Option, none, some, List, [], ◌∷◌, ◌++◌, length, get_or, ltb, leb, ◌==◌,
  if◌then◌else◌,
}
use url_shortner.Text.{Text, codes}
use url_shortner.Errors.{Error, Result, ok, err, wrapped}
use url_shortner.Ports.{Context}

abbrev pub base62_alphabet : Text
base62_alphabet = codes "0123456789abcdefghijklmnopqrstuvwxyzABCDEFGHIJKLMNOPQRSTUVWXYZ"

abbrev pub default_code_length : ℕ
default_code_length = 8

abbrev pub unbiased_byte_limit : ℕ
unbiased_byte_limit = 256 - 256 % length base62_alphabet

-- base62Alphabet[int(value)%len(base62Alphabet)]
unfoldable pub letter : ℕ → ℕ
letter value = get_or base62_alphabet (value % 62) 0

-- `for _, value := range randomBytes`, over the code so far
unfoldable pub append_bytes : ℕ → Text → List ℕ → Text
append_bytes size code [] = code
append_bytes size code (value ∷ rest) =
    let skipped = append_bytes size code rest in
    let longer = code ++ letter value ∷ [] in
    let continued = append_bytes size longer rest in
    if leb unbiased_byte_limit value
    then skipped
    else if length longer == size
    then longer
    else continued

-- The answers of one round: ctx.Err(), and io.ReadFull into the buffer.
pub record Round : Type 0 where
  pub context : Context
  pub read : Result (List ℕ)

-- `for len(code) < g.length`
unfoldable pub collect : ℕ → Text → List Round → Option (Result Text)
collect size code [] = if ltb (length code) size then none else some (ok code)
collect size code (r ∷ rest) =
    let next : Option (Result Text) = elim r.context [
      | some e ↦ some (err e)
      | none ↦ elim r.read [
        | err e ↦ some (err (wrapped e))
        | ok bytes ↦ collect size (append_bytes size code bytes) rest
      ]
    ] in
    if ltb (length code) size then next else some (ok code)

-- Generate, of a generator for codes of this size
unfoldable pub generate : ℕ → Context → List Round → Option (Result Text)
unfolding collect
generate size (some e) rounds = some (err e)
generate size none rounds = collect size [] rounds
