-- ===== src/Application/Concurrent/Growth.antt =====
-- How the table of links grows under any call: no link goes, and its version only rises.
use mathlib.Core.Path.{subst}
use url_shortner.Prelude.{
  ℕ, ◌<◌, ◌≡◌, ◌∙◌, sym, ap, ◌⊎◌, inl, inr, refl, none, some, arith, Bool-cases,
}
use url_shortner.Text.{Text, text_eq, text_eq_iff}
use url_shortner.Domain.Link.{Link}
use url_shortner.Ports.Laws.{Table, written}
use url_shortner.Application.Management.Locking.{written_self}

-- The link itself, or one with a higher version.
abbrev pub Later : Link → Link → Type 0
Later old new = (new ≡ old) ⊎ (old.version < new.version)

-- Every link stands under its own code.
abbrev pub IsKeyed : Table → Type 0
IsKeyed table = (c : Text) (l : Link) → table c ≡ some l → l.code ≡ c

abbrev pub Grows : Table → Table → Type 0
Grows t t' = (c : Text) (l : Link) → t c ≡ some l → (l' : Link) × (t' c ≡ some l') × Later l l'

pub Later-trans : (a b c : Link) → Later a b → Later b c → Later a c
Later-trans a b c (inl same) (inl same') = inl (same' ∙ same)
Later-trans a b c (inl same) (inr up) = inr (subst (λ (x : Link). x.version < c.version) same up)
Later-trans a b c (inr up) (inl same) =
    inr (subst (λ (x : Link). a.version < x.version) (sym same) up)
Later-trans a b c (inr up) (inr up') = inr (omega arith)

pub Later-above : (n : ℕ) (old new : Link) → Later old new → n < old.version → n < new.version
Later-above n old new (inl same) low = subst (λ (x : Link). n < x.version) (sym same) low
Later-above n old new (inr up) low = omega arith

pub Grows-refl : (t : Table) → Grows t t
Grows-refl t c l h = (l, h, inl refl)

pub written-IsKeyed : (t : Table) (l : Link) → IsKeyed t → IsKeyed (written l t)
written-IsKeyed t l keyed c k h = elim (Bool-cases (text_eq l.code c)) [
  | inl same ↦
      let here : some l ≡ some k = rw same at h in
      let same_link : l ≡ k = cc in
      ap (λ (x : Link). x.code) (sym same_link) ∙ (text_eq_iff l.code c).0 same
  | inr other ↦ keyed c k (rw other at h)
]

-- A write into a free place.
pub insert-Grows : (t : Table) (l : Link) → t l.code ≡ none → Grows t (written l t)
insert-Grows t l free c k h = elim (Bool-cases (text_eq l.code c)) [
  | inl same ↦
      let clash : none ≡ some k = sym free ∙ ap t ((text_eq_iff l.code c).0 same) ∙ h in
      absurd (ground arith)
  | inr other ↦ (k, rw other h, inl refl)
]

-- A write of a later link over the one that is stored.
pub write-Grows :
    (t : Table) (old new : Link)
    → t new.code ≡ some old
    → old.version < new.version
    → Grows t (written new t)
write-Grows t old new here up c k h = elim (Bool-cases (text_eq new.code c)) [
  | inl same ↦
      let code = (text_eq_iff new.code c).0 same in
      let met : some old ≡ some k = sym here ∙ ap t code ∙ h in
      let same_link : old ≡ k = cc in (new, written_self t new c code, inr (rw same_link at up))
  | inr other ↦ (k, rw other h, inl refl)
]
