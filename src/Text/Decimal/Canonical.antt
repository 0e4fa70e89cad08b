-- ===== src/Text/Decimal/Canonical.antt =====
-- What FormatUint prints: digits only, no leading zero, and the number itself when read back.
use url_shortner.Prelude.{
  Bool, ℕ, zero, suc, ◌+◌, ◌-◌, ◌*◌, ◌/◌, ◌%◌, ◌≤◌, ◌<◌, ◌≡◌, inl, inr, refl, some, true, false,
  ◌&&◌, ◌||◌, [], ◌∷◌, ◌++◌, length, arith, ltb, ◌==◌, Bool-cases,
}
use url_shortner.Time.{uint64_mod}
use url_shortner.Text.{Text, is_empty}
use url_shortner.Text.Decimal.{
  digits_on, format_uint, is_digit, all_digits, value, parse_uint, text_gt,
}
use url_shortner.Text.Decimal.Order.{scaled, power, value-below, value-above, text_gt-value}

all_digits-append :
    (s : Text) (c : ℕ) → all_digits s ≡ true → is_digit c ≡ true → all_digits (s ++ c ∷ []) ≡ true
unfolding all_digits
all_digits-append [] c h k = ground arith
all_digits-append (d ∷ s) c h k = ground (arith, all_digits-append s c)

value-append : (a : ℕ) (s : Text) (c : ℕ) → value a (s ++ c ∷ []) ≡ value a s * 10 + (c - 48)
unfolding value
value-append a [] c = refl
value-append a (d ∷ s) c = value-append (a * 10 + (d - 48)) s c

-- No leading zero.
abbrev Leads : Text → Type 0
Leads [] = ⊥
Leads (c ∷ s) = 49 ≤ c

Leads-append : (s t : Text) → Leads s → Leads (s ++ t)
Leads-append [] t h = absurd h
Leads-append (c ∷ s) t h = h

record Prints (n : ℕ) (s : Text) : Type 0 where
  digits : all_digits s ≡ true
  number : value 0 s ≡ n

digits_on-Prints : (fuel n : ℕ) → n < fuel → Prints n (digits_on fuel n)
unfolding digits_on
digits_on-Prints zero n h = absurd (omega arith)
digits_on-Prints (suc fuel) n h = elim (Bool-cases (ltb n 10)) [
  | inl one ↦
      rw one (unfold all_digits value in record { digits = ground arith; number = ground arith })
  | inr more ↦
      let ih : Prints (n / 10) (digits_on fuel (n / 10)) =
        digits_on-Prints fuel (n / 10) (ground arith) in
      let last : is_digit (48 + n % 10) ≡ true = unfold is_digit in ground arith in
      rw more (record {
        digits = all_digits-append (digits_on fuel (n / 10)) (48 + n % 10) ih.digits last;
        number = ground (arith, value-append 0 (digits_on fuel (n / 10)) (48 + n % 10), ih.number);
      })
]

digits_on-Leads : (fuel n : ℕ) → n < fuel → 0 < n → Leads (digits_on fuel n)
unfolding digits_on
digits_on-Leads zero n h p = absurd (omega arith)
digits_on-Leads (suc fuel) n h p = elim (Bool-cases (ltb n 10)) [
  | inl one ↦ rw one (omega arith)
  | inr more ↦ rw more (
      Leads-append (digits_on fuel (n / 10)) ((48 + n % 10) ∷ [])
        (digits_on-Leads fuel (n / 10) (ground arith) (ground arith)))
]

format_uint-Prints : (n : ℕ) → Prints n (format_uint n)
unfolding format_uint
format_uint-Prints n = digits_on-Prints (suc n) n (omega arith)

pub format_uint-digits : (n : ℕ) → all_digits (format_uint n) ≡ true
format_uint-digits n = (format_uint-Prints n).digits

digits_there : (s : Text) → Leads s → is_empty s ≡ false
unfolding is_empty
digits_there [] h = absurd h
digits_there (c ∷ s) h = refl

pub format_uint_there : (n : ℕ) → is_empty (format_uint n) ≡ false
unfolding format_uint is_empty
format_uint_there zero = unfold digits_on in refl
format_uint_there (suc n) =
    digits_there _ (digits_on-Leads (suc (suc n)) (suc n) (omega arith) (omega arith))

-- ParseUint reads back what FormatUint prints of a uint64.
pub parse_uint-format_uint : (n : ℕ) → n < uint64_mod → parse_uint (format_uint n) ≡ some n
unfolding parse_uint
parse_uint-format_uint n h =
    let p = format_uint-Prints n in ground (arith, format_uint_there n, p.digits, p.number)

power_mono : (t s : Text) → length t ≤ length s → power t ≤ power s
power_mono [] [] h = omega arith
power_mono [] (c ∷ s) h = omega (arith, power_mono [] s)
power_mono (d ∷ t) [] h = absurd (omega arith)
power_mono (d ∷ t) (c ∷ s) h = omega (arith, power_mono t s (omega arith))

-- A longer decimal with no leading zero stands for a larger number.
longer-lt :
    (s t : Text) → Leads s → all_digits t ≡ true → length t < length s → value 0 t < value 0 s
longer-lt [] t lead h longer = absurd lead
longer-lt (c ∷ s) t lead h longer =
    let low = value-below 0 t h in
    let first = 0 * 10 + (c - 48) in
    let high = value-above first s in
    let scale = power_mono t s (omega arith) in
    let one : 1 * power s ≤ first * power s = scaled 1 first (power s) (omega arith) in
    unfold value in omega arith

-- The comparison of two stored versions, by length and then by text.
abbrev pub decimal_gt : Text → Text → Bool
decimal_gt s t = ltb (length t) (length s) || (length s == length t && text_gt s t)

decimal_gt-Prints :
    (v w : ℕ) (s t : Text) → Prints v s → Prints w t → Leads s → Leads t → decimal_gt s t ≡ ltb w v
decimal_gt-Prints v w s t a b lead lead' = ground (
  arith,
  longer-lt s t lead b.digits,
  longer-lt t s lead' a.digits,
  text_gt-value 0 s t a.digits b.digits,
  a.number,
  b.number,
)

format_uint-Leads : (n : ℕ) → 0 < n → Leads (format_uint n)
unfolding format_uint
format_uint-Leads n h = digits_on-Leads (suc n) n (omega arith) h

-- On printed numbers above 0 the comparison by length and text is the comparison of the numbers.
pub decimal_gt-format_uint :
    (v w : ℕ) → 0 < v → 0 < w → decimal_gt (format_uint v) (format_uint w) ≡ ltb w v
decimal_gt-format_uint v w p q =
    decimal_gt-Prints v w (format_uint v) (format_uint w) (format_uint-Prints v)
      (format_uint-Prints w) (format_uint-Leads v p) (format_uint-Leads w q)
