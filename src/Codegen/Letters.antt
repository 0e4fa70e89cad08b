-- ===== src/Codegen/Letters.antt =====
-- Which code a run of the generator gives.
use url_shortner.Prelude.{
  min, length-map, length-take, take-append, ℕ, zero, suc, ◌+◌, ◌-◌, ◌≡◌, ◌∙◌, sym, refl, true,
  false, none, some, List, [], ◌∷◌, ◌++◌, map, length, length-append, take, arith, ltb, leb, ◌==◌,
  Bool-cases, inl, inr, if◌then◌else◌,
}
use mathlib.Core.List.{map-append, append-nil, append_assoc}
use url_shortner.Text.{Text}
use url_shortner.Errors.{ok}
use url_shortner.Codegen.{unbiased_byte_limit, letter, append_bytes, Round, collect, generate}

-- The bytes that the generator does not reject.
abbrev pub accepted : List ℕ → List ℕ
accepted [] = []
accepted (value ∷ rest) =
    let more = accepted rest in if leb unbiased_byte_limit value then more else value ∷ more

abbrev pub letters : List ℕ → Text
letters = map letter

longer : Text → ℕ → Text
longer code value = code ++ letter value ∷ []

length-longer : (code : Text) (value : ℕ) → length (longer code value) ≡ length code + 1
unfolding longer
length-longer code value = length-append code (letter value ∷ [])

longer-append :
    (code : Text) (value : ℕ) (s : Text) → longer code value ++ s ≡ code ++ letter value ∷ s
unfolding longer
longer-append code value s = append_assoc code (letter value ∷ []) s

append_bytes-accepted :
    (k size : ℕ) (code : Text) (bytes : List ℕ)
    → suc k + length code ≡ size
    → append_bytes size code bytes ≡ code ++ letters (take (suc k) (accepted bytes))
unfolding append_bytes longer
append_bytes-accepted k size code [] h = sym (append-nil code)
append_bytes-accepted zero size code (value ∷ rest) h =
    elim (Bool-cases (leb unbiased_byte_limit value)) [
      | inl rejected ↦ rw rejected (append_bytes-accepted zero size code rest h)
      | inr kept ↦
          let full : (length (longer code value) == size) ≡ true =
            ground (arith, length-longer code value) in
          rw (kept, full)
    ]
append_bytes-accepted (suc k) size code (value ∷ rest) h =
    elim (Bool-cases (leb unbiased_byte_limit value)) [
      | inl rejected ↦ rw rejected (append_bytes-accepted (suc k) size code rest h)
      | inr kept ↦
          let more : (length (longer code value) == size) ≡ false =
            ground (arith, length-longer code value) in
          rw (kept, more)
            (append_bytes-accepted k size (longer code value) rest
                (omega (arith, length-longer code value))
              ∙ longer-append code value (letters (take (suc k) (accepted rest))))
    ]

-- A round in which the context is live and the reader fills the buffer.
abbrev pub clean : List ℕ → Round
clean bytes = record { context = none; read = ok bytes }

-- The bytes kept of all the buffers.
abbrev pub stream : List (List ℕ) → List ℕ
stream [] = []
stream (bytes ∷ rest) = accepted bytes ++ stream rest

-- The state of the loop after one buffer.
next_code : ℕ → Text → List ℕ → Text
next_code k code bytes = code ++ letters (take k (accepted bytes))

length-next_code :
    (k : ℕ) (code : Text) (bytes : List ℕ)
    → length (next_code k code bytes) ≡ length code + min k (length (accepted bytes))
unfolding next_code
length-next_code k code bytes = omega (
  arith,
  length-append code (letters (take k (accepted bytes))),
  length-map (take k (accepted bytes)) letter,
  length-take k (accepted bytes),
)

next_code-append :
    (k : ℕ) (code : Text) (bytes more : List ℕ)
    → next_code k code bytes ++ letters (take (k - length (accepted bytes)) more)
      ≡ code ++ letters (take k (accepted bytes ++ more))
unfolding next_code
next_code-append k code bytes more =
    rw (take-append k (accepted bytes) more, map-append, append_assoc)

leb-shift : (a b c : ℕ) → leb (a - b) c ≡ leb a (b + c)
leb-shift a b c = ground arith

collect-clean :
    (k size : ℕ) (code : Text) (buffers : List (List ℕ))
    → k + length code ≡ size
    → collect size code (map clean buffers) ≡ (
        if leb k (length (stream buffers))
        then some (ok (code ++ letters (take k (stream buffers))))
        else none)
unfolding collect next_code
collect-clean zero size code [] h =
    let full : ltb (length code) size ≡ false = ground arith in rw (full, append-nil code)
collect-clean zero size code (b ∷ bs) h =
    let full : ltb (length code) size ≡ false = ground arith in
    let enough : leb 0 (length (stream (b ∷ bs))) ≡ true = ground arith in
    rw (full, enough, append-nil code)
collect-clean (suc k) size code [] h = ground arith
collect-clean (suc k) size code (b ∷ bs) h =
    let short : ltb (length code) size ≡ true = ground arith in
    let left = suc k - length (accepted b) in
    let filled = append_bytes-accepted k size code b h in
    let after : left + length (next_code (suc k) code b) ≡ size =
      omega (arith, length-next_code (suc k) code b) in
    let total : leb left (length (stream bs)) ≡ leb (suc k) (length (stream (b ∷ bs))) =
      rw (length-append (accepted b) (stream bs))
        (leb-shift (suc k) (length (accepted b)) (length (stream bs))) in
    rw (short, filled)
      (collect-clean left size (next_code (suc k) code b) bs after
        ∙ rw (total, next_code-append (suc k) code b (stream bs)) refl)

-- With a live context and a reader that fills its buffers, Generate gives a code as soon as the
-- buffers hold enough bytes below the limit, and the code is the letters of the first of those; with
-- fewer such bytes it goes on reading.
pub generate-clean :
    (size : ℕ) (buffers : List (List ℕ))
    → generate size none (map clean buffers) ≡ (
        if leb size (length (stream buffers))
        then some (ok (letters (take size (stream buffers))))
        else none)
unfolding generate
generate-clean size buffers = collect-clean size size [] buffers (omega arith)
