-- ===== src/Codegen/Unbiased.antt =====
-- The rejection limit makes every letter equally likely.
use url_shortner.Prelude.{
  ℕ, zero, suc, ◌+◌, ◌<◌, ◌≡◌, refl, Bool, true, ◌&&◌, arith, ◌==◌, ==_iff, if◌then◌else◌,
}
use url_shortner.Codegen.{unbiased_byte_limit, letter}

-- How many of the bytes below a bound pass a test.
pub count_below : ℕ → (ℕ → Bool) → ℕ
count_below zero p = 0
count_below (suc n) p = (if p n then 1 else 0) + count_below n p

-- How many accepted bytes are turned into this letter.
abbrev pub bytes_for : ℕ → ℕ
bytes_for c = count_below unbiased_byte_limit (λ b. letter b == c)

each_below : ℕ → (ℕ → Bool) → Bool
each_below zero p = true
each_below (suc n) p = p n && each_below n p

each_below_sound : (n : ℕ) (p : ℕ → Bool) (x : ℕ) → each_below n p ≡ true → x < n → p x ≡ true
unfolding each_below
each_below_sound zero p x h lt = absurd (omega arith)
each_below_sound (suc n) p x h lt = ground (arith, each_below_sound n p x)

letter_table : each_below 62 (λ i. bytes_for (letter i) == 4) ≡ true
unfolding each_below count_below letter
letter_table = refl

-- Each of the 62 letters comes from exactly four of the 248 accepted bytes, so a uniform byte gives
-- a uniform letter.
pub letter_unbiased : (i : ℕ) → i < 62 → bytes_for (letter i) ≡ 4
letter_unbiased i h = (==_iff _ 4).0 (each_below_sound 62 _ i letter_table h)
