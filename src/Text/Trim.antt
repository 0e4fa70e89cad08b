-- ===== src/Text/Trim.antt =====
-- What strings.TrimSpace returns is trimmed already.
use url_shortner.Prelude.{ℕ, ◌≡◌, ◌∙◌, ap, refl, false, [], ◌∷◌, inl, inr, arith, Bool-cases}
use url_shortner.Text.{Text, is_space, trim_left, trim_right, push_back, trim_space}

-- The text does not begin with white space.
abbrev StartsInk : Text → Type 0
StartsInk [] = Unit
StartsInk (c ∷ s) = is_space c ≡ false

trim_left-StartsInk : (s : Text) → StartsInk (trim_left s)
unfolding trim_left
trim_left-StartsInk [] = tt
trim_left-StartsInk (c ∷ s) = elim (Bool-cases (is_space c)) [
  | inl e ↦ rw e (trim_left-StartsInk s)
  | inr e ↦ rw e e
]

trim_left_of_StartsInk : (s : Text) → StartsInk s → trim_left s ≡ s
unfolding trim_left
trim_left_of_StartsInk [] h = refl
trim_left_of_StartsInk (c ∷ s) h = rw h

push_back-StartsInk : (c : ℕ) (s : Text) → is_space c ≡ false → StartsInk (push_back c s)
push_back-StartsInk c [] h = rw h h
push_back-StartsInk c (d ∷ s) h = h

trim_right-StartsInk : (s : Text) → StartsInk s → StartsInk (trim_right s)
unfolding trim_right
trim_right-StartsInk [] h = tt
trim_right-StartsInk (c ∷ s) h = push_back-StartsInk c (trim_right s) h

push_back-trim : (c : ℕ) (s : Text) → trim_right s ≡ s → trim_right (push_back c s) ≡ push_back c s
unfolding trim_right
push_back-trim c [] h = ground arith
push_back-trim c (d ∷ s) h = ap (push_back c) h

pub trim_right_idem : (s : Text) → trim_right (trim_right s) ≡ trim_right s
unfolding trim_right
trim_right_idem [] = refl
trim_right_idem (c ∷ s) = push_back-trim c (trim_right s) (trim_right_idem s)

pub trim_space_idem : (s : Text) → trim_space (trim_space s) ≡ trim_space s
unfolding trim_space
trim_space_idem s =
    ap trim_right (
      trim_left_of_StartsInk (trim_right (trim_left s))
        (trim_right-StartsInk (trim_left s) (trim_left-StartsInk s)))
    ∙ trim_right_idem (trim_left s)
