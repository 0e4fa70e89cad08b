-- ===== src/Text.antt =====
-- Go strings as lists of code points, and the functions of package strings that the program calls.
-- A text is the sequence of runes of a valid UTF-8 string; equality of texts is Go's `==`.
pub mod Trim
pub mod Decimal
use Prim.Native.Char.{code}
use url_shortner.Prelude.{
  ℕ, ◌+◌, ◌≡◌, ◌↔◌, ◌∙◌, ap, refl, sym, Bool, true, false, ◌&&◌, ◌||◌, List, [], ◌∷◌, map, String,
  Eq, arith, leb, ltb, ◌==◌, if◌then◌else◌,
}

abbrev pub Text : Type 0
Text = List ℕ

-- The code points of a literal.
abbrev pub codes : String → Text
codes String.[] = []
codes (String.◌∷◌ c s) = code c ∷ codes s

unfoldable pub text_eq : Text → Text → Bool
text_eq [] [] = true
text_eq [] (d ∷ t) = false
text_eq (c ∷ s) [] = false
text_eq (c ∷ s) (d ∷ t) = c == d && text_eq s t

pub text_eq_iff : (s t : Text) → (text_eq s t ≡ true) ↔ (s ≡ t)
unfolding text_eq
text_eq_iff [] [] = ground arith
text_eq_iff [] (d ∷ t) = ground arith
text_eq_iff (c ∷ s) [] = ground arith
text_eq_iff (c ∷ s) (d ∷ t) = ground (arith, text_eq_iff s t)

pub text_eq_refl : (s : Text) → text_eq s s ≡ true
text_eq_refl s = (text_eq_iff s s).1 refl

instance abbrev pub text_key : Eq Text
text_key = record { eqb = text_eq; eqb_iff = text_eq_iff }

-- `s == ""`
unfoldable pub is_empty : Text → Bool
is_empty [] = true
is_empty (c ∷ s) = false

-- unicode.IsSpace
unfoldable pub is_space : ℕ → Bool
is_space c =
    (leb 9 c && leb c 13)
    || (c == 32)
    || (c == 0x85)
    || (c == 0xa0)
    || (c == 0x1680)
    || (leb 0x2000 c && leb c 0x200a)
    || (c == 0x2028)
    || (c == 0x2029)
    || (c == 0x202f)
    || (c == 0x205f)
    || (c == 0x3000)

-- strings.TrimLeftFunc and strings.TrimRightFunc at unicode.IsSpace
unfoldable pub trim_left : Text → Text
trim_left [] = []
trim_left (c ∷ s) = if is_space c then trim_left s else c ∷ s

abbrev pub push_back : ℕ → Text → Text
push_back c [] = if is_space c then [] else c ∷ []
push_back c (d ∷ s) = c ∷ d ∷ s

unfoldable pub trim_right : Text → Text
trim_right [] = []
trim_right (c ∷ s) = push_back c (trim_right s)

-- strings.TrimSpace
unfoldable pub trim_space : Text → Text
trim_space s = trim_right (trim_left s)

-- unicode.ToLower; the runes beyond ASCII are the argument's.
unfoldable pub to_lower_rune : (ℕ → ℕ) → ℕ → ℕ
to_lower_rune beyond c =
    if ltb c 128 then (if leb 65 c && leb c 90 then c + 32 else c) else beyond c

-- strings.ToLower
unfoldable pub to_lower : (ℕ → ℕ) → Text → Text
to_lower beyond s = map (to_lower_rune beyond) s
