-- ===== src/Postgres/Store/Keys.antt =====
-- The idempotency records: the first code that was saved under a key stays.
use url_shortner.Prelude.{ℕ, ◌≡◌, ◌∙◌, refl, not, Option, none, some, arith}
use url_shortner.Text.{Text, text_eq}
use url_shortner.Errors.{Result, ok, fail_if, idempotency_key_conflict}
use url_shortner.Net.{UrlLib}
use url_shortner.Domain.Link.{Link}
use url_shortner.Ports.{Context}
use url_shortner.Postgres.{Answer, done, Pool}
use url_shortner.Postgres.Laws.{PoolLaws, KeyInserted}
use url_shortner.Postgres.Store.{existing_result, after_insert, save}

-- The entry after a save, and its result, from the entry before.
abbrev pub entry_after : Text → Option Text → Text
entry_after code none = code
entry_after code (some old) = old

abbrev pub save_result : Text → Option Text → Result (Unit {0})
save_result code none = ok tt
save_result code (some old) = fail_if (not (text_eq old code)) idempotency_key_conflict

module _ {S : Type 0} (pool : Pool S) (lib : UrlLib) (laws : PoolLaws pool) (ctx : Context)
    (owner key : Text) (l : Link) (s : S) where
  abbrev first : Answer ℕ × S
  first = pool.insert_key ctx owner key l.code l.created_at s

  abbrev second : Answer Text × S
  second = pool.select_key ctx owner key first.1

  after_insert-done :
      (n : ℕ) (existing : Text) (before : Option Text)
      → laws.keys s owner key ≡ before
      → KeyInserted l.code n before (laws.keys first.1 owner key)
      → second.0 ≡ done existing
      → ((after_insert pool lib ctx owner key l.code (done n) first.1).0
          ≡ save_result l.code before)
        × (laws.keys (after_insert pool lib ctx owner key l.code (done n) first.1).1 owner key
            ≡ some (entry_after l.code before))
  unfolding after_insert existing_result
  after_insert-done n existing none held (one, entry) read = rw one (refl, entry)
  after_insert-done n existing (some old) held (zero, entry) read =
      let seen = laws.select_key_done ctx owner key first.1 existing read in
      let keeps = laws.select_key_keeps ctx owner key first.1 in
      let same : existing ≡ old = ground (arith, seen, entry) in
      rw (zero, read, same) (refl, keeps ∙ entry)

  -- A save that the database answers succeeds if nothing or this code stood under the key, and
  -- reports a conflict otherwise; a code that stood there stays, and else this code stands there now.
  pub save-first_stays :
      (n : ℕ) (existing : Text)
      → first.0 ≡ done n
      → second.0 ≡ done existing
      → ((save pool lib ctx owner key l s).0 ≡ save_result l.code (laws.keys s owner key))
        × (laws.keys (save pool lib ctx owner key l s).1 owner key
            ≡ some (entry_after l.code (laws.keys s owner key)))
  unfolding save
  save-first_stays n existing inserted read = rw inserted (
      after_insert-done n existing (laws.keys s owner key) refl
        (laws.insert_key_done ctx owner key l.code l.created_at s n inserted) read)
