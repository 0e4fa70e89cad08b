-- ===== src/Text/Decimal/Order.antt =====
-- The order of decimal texts of one length is the order of their values.
use url_shortner.Prelude.{
  sym, ℕ, ◌+◌, ◌-◌, ◌*◌, ◌≤◌, ◌<◌, ◌≡◌, ap, refl, true, [], ◌∷◌, length, arith, ltb,
}
use url_shortner.Text.{Text}
use url_shortner.Text.Decimal.{all_digits, value, text_gt}

-- 10 to the power of a length
abbrev pub power : Text → ℕ
power [] = 1
power (c ∷ s) = 10 * power s

pub scaled : (m n p : ℕ) → m ≤ n → m * p ≤ n * p
scaled m n p h = grind arith

pub value-below : (a : ℕ) (s : Text) → all_digits s ≡ true → value a s + 1 ≤ (a + 1) * power s
unfolding value all_digits
value-below a [] h = omega arith
value-below a (c ∷ s) h =
    let next = a * 10 + (c - 48) in
    let ih : value next s + 1 ≤ (next + 1) * power s = value-below next s (ground arith) in
    let digit : c ≤ 57 = ground arith in
    let room : (next + 1) * power s ≤ (a * 10 + 10) * power s =
      scaled (next + 1) (a * 10 + 10) (power s) (omega arith) in
    omega arith

pub value-above : (a : ℕ) (s : Text) → a * power s ≤ value a s
unfolding value
value-above a [] = omega arith
value-above a (c ∷ s) =
    let ih = value-above (a * 10 + (c - 48)) s in
    let room : a * 10 * power s ≤ (a * 10 + (c - 48)) * power s = grind arith in omega arith

same_power : (s t : Text) → length s ≡ length t → power s ≡ power t
same_power [] [] h = refl
same_power [] (d ∷ t) h = absurd (omega arith)
same_power (c ∷ s) [] h = absurd (omega arith)
same_power (c ∷ s) (d ∷ t) h = ap (λ (p : ℕ). 10 * p) (same_power s t (omega arith))

-- A larger number of leading digits outweighs all the digits that follow.
value-lt :
    (a b : ℕ) (s t : Text)
    → all_digits s ≡ true
    → length s ≡ length t
    → a < b
    → value a s < value b t
value-lt a b s t h same less =
    let low = value-below a s h in
    let high = value-above b t in
    let scale = same_power s t same in
    let room : (a + 1) * power s ≤ b * power s = grind arith in
    let high' : b * power s ≤ value b t = rw scale high in omega arith

pub text_gt-value :
    (a : ℕ) (s t : Text)
    → all_digits s ≡ true
    → all_digits t ≡ true
    → length s ≡ length t
    → text_gt s t ≡ ltb (value a t) (value a s)
unfolding text_gt value all_digits
text_gt-value a [] [] h k same = ground arith
text_gt-value a [] (d ∷ t) h k same = absurd (omega arith)
text_gt-value a (c ∷ s) [] h k same = absurd (omega arith)
text_gt-value a (c ∷ s) (d ∷ t) h k same =
    let left : all_digits s ≡ true = ground arith in
    let right : all_digits t ≡ true = ground arith in
    let floor_left : 48 ≤ c = ground arith in
    let floor_right : 48 ≤ d = ground arith in
    let tails : length s ≡ length t = omega arith in
    let x = a * 10 + (c - 48) in
    let y = a * 10 + (d - 48) in
    ground (
      arith,
      value-lt y x t s right (sym tails),
      value-lt x y s t left tails,
      text_gt-value (a * 10 + (c - 48)) s t left right tails,
    )
