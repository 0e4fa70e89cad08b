-- ===== src/Text/Decimal.antt =====
-- strconv.FormatUint and strconv.ParseUint in base 10, and the order of Lua's strings.
pub mod Order
pub mod Canonical
use url_shortner.Prelude.Int.{ℤ, pos, negsuc}
use url_shortner.Prelude.{
  ℕ, zero, suc, ◌+◌, ◌-◌, ◌*◌, ◌/◌, ◌%◌, Bool, true, false, ◌&&◌, Option, none, some, [], ◌∷◌, ◌++◌,
  ltb, leb, ◌==◌, if◌then◌else◌,
}
use url_shortner.Time.{uint64_mod}
use url_shortner.Text.{Text, is_empty}

-- The digits of a number, most significant first; fuel above the number is enough.
unfoldable pub digits_on : ℕ → ℕ → Text
digits_on zero n = []
digits_on (suc fuel) n =
    let more = digits_on fuel (n / 10) ++ (48 + n % 10) ∷ [] in
    if ltb n 10 then (48 + n) ∷ [] else more

unfoldable pub format_uint : ℕ → Text
unfolding digits_on
format_uint n = digits_on (suc n) n

unfoldable pub is_digit : ℕ → Bool
is_digit c = leb 48 c && leb c 57

-- The number that digits stand for, after those read so far.
unfoldable pub value : ℕ → Text → ℕ
value acc [] = acc
value acc (c ∷ s) = value (acc * 10 + (c - 48)) s

unfoldable pub all_digits : Text → Bool
unfolding is_digit
all_digits [] = true
all_digits (c ∷ s) = is_digit c && all_digits s

-- strconv.ParseUint(s, 10, 64); `none` is an error.
unfoldable pub parse_uint : Text → Option ℕ
unfolding value all_digits
parse_uint s =
    if is_empty s
    then none
    else if all_digits s && ltb (value 0 s) uint64_mod
    then some (value 0 s)
    else none

-- `s > t` on Lua strings
unfoldable pub text_gt : Text → Text → Bool
text_gt [] t = false
text_gt (c ∷ s) [] = true
text_gt (c ∷ s) (d ∷ t) = if ltb d c then true else c == d && text_gt s t

-- strconv.FormatInt(n, 10)
unfoldable pub format_int : ℤ → Text
unfolding format_uint
format_int (pos n) = format_uint n
format_int (negsuc n) = b'-' ∷ format_uint (suc n)
