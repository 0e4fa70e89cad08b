-- ===== src/Memory/Idempotency.antt =====
-- internal/link/adapters/memory/idempotency.go, over a state that holds the map of records.
pub mod Records
use url_shortner.Prelude.{Bool, ◌≡◌, ◌↔◌, ◌&&◌, not, true, Option, none, some, [], GoMap, Eq, arith}
use url_shortner.Prelude.Maps.{lookup}
use url_shortner.Prelude.Maps
use url_shortner.Text.{Text, text_eq, text_eq_iff}
use url_shortner.Errors.{
  Result, ok, fail, fail_if, idempotency_key_not_found, idempotency_key_conflict,
}
use url_shortner.Io.{Io, get, assign, lift, pure, ◌>>=◌, ◌>>◌}
use url_shortner.Domain.Link.{Link}
use url_shortner.Ports.{Context, context_error, IdempotencyStore}

-- idempotencyKey: a struct of two strings, with Go's `==`.
pub record IdempotencyKey : Type 0 where
  pub owner_id : Text
  pub key : Text

abbrev pub key_eq : IdempotencyKey → IdempotencyKey → Bool
key_eq a b = text_eq a.owner_id b.owner_id && text_eq a.key b.key

pub key_eq_iff : (a b : IdempotencyKey) → (key_eq a b ≡ true) ↔ (a ≡ b)
key_eq_iff a b = ground (arith, text_eq_iff a.owner_id b.owner_id, text_eq_iff a.key b.key)

instance abbrev pub idempotency_key_key : Eq IdempotencyKey
idempotency_key_key = record { eqb = key_eq; eqb_iff = key_eq_iff }

abbrev pub Records : Type 0
Records = GoMap IdempotencyKey Link

abbrev pub or_not_found : Option Link → Result Link
or_not_found none = fail idempotency_key_not_found
or_not_found (some l) = ok l

-- NewIdempotencyStore
abbrev pub new_idempotency_store : Records
new_idempotency_store = []

unfoldable pub get_record : Context → Text → Text → Io Records Link
get_record ctx owner_id key = do
  lift (context_error ctx)
  records ← get
  lift (or_not_found (lookup (record { owner_id = owner_id; key = key }) records))

-- Go's `==` on two links compares their pointers and the inner form of their times: it is a
-- parameter.
abbrev pub SameLink : Type 0
SameLink = Link → Link → Bool

-- What Save does with the record that it finds.
unfoldable pub save_over : SameLink → IdempotencyKey → Link → Option Link → Io Records (Unit {0})
save_over same key link none = assign (Maps.insert key link)
save_over same key link (some existing) =
    lift (fail_if (not (same existing link)) idempotency_key_conflict)

unfoldable pub save_record : SameLink → Context → Text → Text → Link → Io Records (Unit {0})
unfolding save_over
save_record same ctx owner_id key link = do
  lift (context_error ctx)
  records ← get
  let record_key : IdempotencyKey = record { owner_id = owner_id; key = key }
  save_over same record_key link (lookup record_key records)
