-- ===== src/Memory/Idempotency/Records.antt =====
-- The in-memory idempotency store keeps the first link of each owner and key.
use url_shortner.Prelude.{
  Bool-cases, inl, inr, sym, ◌≡◌, ◌∙◌, ap, refl, true, Option, none, some, arith,
}
use url_shortner.Prelude.Maps.{lookup-insert, lookup, lookup-insert_self}
use url_shortner.Text.{Text}
use url_shortner.Errors.{ok}
use url_shortner.Domain.Link.{Link}
use url_shortner.Ports.{Context}
use url_shortner.Memory.Idempotency.{
  Records, IdempotencyKey, idempotency_key_key, SameLink, get_record, save_over, save_record,
}

abbrev pub record_of : Records → Text → Text → Option Link
record_of records owner key = lookup (record { owner_id = owner; key = key }) records

pub get_keeps :
    (ctx : Context) (owner key : Text) (s : Records) → (get_record ctx owner key s).1 ≡ s
unfolding get_record
get_keeps ctx owner key s = ground arith

pub get_ok :
    (ctx : Context) (owner key : Text) (s : Records) (l : Link)
    → (get_record ctx owner key s).0 ≡ ok l
    → record_of s owner key ≡ some l
unfolding get_record
get_ok ctx owner key s l h = ground arith

pub get_stored :
    (owner key : Text) (s : Records) (l : Link)
    → record_of s owner key ≡ some l
    → (get_record none owner key s).0 ≡ ok l
unfolding get_record
get_stored owner key s l h = ground arith

-- Equality of links in Go implies equality of what they hold.
abbrev pub SoundSame : SameLink → Type 0
SoundSame same = (a b : Link) → same a b ≡ true → a ≡ b

save_over_ok :
    (same : SameLink) (sound : SoundSame same) (k : IdempotencyKey) (l : Link) (o : Option Link)
    (s : Records)
    → lookup k s ≡ o
    → (save_over same k l o s).0 ≡ ok tt
    → lookup k (save_over same k l o s).1 ≡ some l
unfolding save_over
save_over_ok same sound k l none s e h = lookup-insert_self k l s
save_over_ok same sound k l (some old) s e h = e ∙ ap some (sound old l (ground arith))

-- A save that succeeds leaves the link on record, whether it wrote it or found it there.
pub save_ok :
    (same : SameLink) (ctx : Context) (owner key : Text) (l : Link) (s : Records)
    → SoundSame same
    → (save_record same ctx owner key l s).0 ≡ ok tt
    → record_of (save_record same ctx owner key l s).1 owner key ≡ some l
unfolding save_record
save_ok same (some x) owner key l s sound h = absurd (ground arith)
save_ok same none owner key l s sound h =
    let k : IdempotencyKey = record { owner_id = owner; key = key } in
    save_over_ok same sound k l (lookup k s) s refl h

save_over_stays :
    (same : SameLink) (k j : IdempotencyKey) (l x : Link) (o : Option Link) (s : Records)
    → lookup k s ≡ o
    → lookup j s ≡ some x
    → lookup j (save_over same k l o s).1 ≡ some x
unfolding save_over
save_over_stays same k j l x none s e h = elim (Bool-cases (idempotency_key_key.eqb k j)) [
  | inl met ↦
      let number : k ≡ j = (idempotency_key_key.eqb_iff k j).0 met in
      let clash : none ≡ some x = sym e ∙ ap (λ (i : IdempotencyKey). lookup i s) number ∙ h in
      absurd (ground arith)
  | inr other ↦ lookup-insert k j l s ∙ rw other h
]
save_over_stays same k j l x (some old) s e h = h

-- A save, accepted or not, changes no record that is there.
pub save_stays :
    (same : SameLink) (ctx : Context) (owner key : Text) (l : Link) (s : Records)
    (owner' key' : Text) (x : Link)
    → record_of s owner' key' ≡ some x
    → record_of (save_record same ctx owner key l s).1 owner' key' ≡ some x
unfolding save_record
save_stays same (some e) owner key l s owner' key' x h = h
save_stays same none owner key l s owner' key' x h =
    let k : IdempotencyKey = record { owner_id = owner; key = key } in
    let j : IdempotencyKey = record { owner_id = owner'; key = key' } in
    save_over_stays same k j l x (lookup k s) s refl h
