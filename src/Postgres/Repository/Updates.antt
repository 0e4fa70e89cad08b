-- ===== src/Postgres/Repository/Updates.antt =====
-- The update of a stored link against the table of links.
use url_shortner.Prelude.{
  ℕ, ◌≡◌, ◌∙◌, refl, ap, Bool, false, ◌&&◌, Option, none, some, arith, Bool-cases, inl, inr,
  if◌then◌else◌,
}
use url_shortner.Text.{Text, text_eq}
use url_shortner.Errors.{Result, ok, err, fail, link_not_found, version_conflict}
use url_shortner.Net.{UrlLib}
use url_shortner.Domain.Link.{Link}
use url_shortner.Ports.{Context}
use url_shortner.Postgres.{LinkRow, driver_error, Answer, refused, done, Pool}
use url_shortner.Postgres.Laws.{PoolLaws, is_some, matches, changed}
use url_shortner.Postgres.Repository.{
  update_of, exists_result, missed_update, link_exists, after_update, update,
}
use mathlib.Core.Option

-- What a missed update says of the row before it.
abbrev pub missed : Option LinkRow → Answer Bool → Result (Unit {0})
missed before (refused e) = err (driver_error e)
missed none (done exists) = fail link_not_found
missed (some r) (done exists) = fail version_conflict

-- The result of an update, from the row before it and from the answers of the database to the update
-- and to the question whether the code is there.
abbrev pub update_result : ℕ → Option LinkRow → Answer ℕ → Answer Bool → Result (Unit {0})
update_result expected before (refused e) exists = err (driver_error e)
update_result expected before (done n) exists =
    if matches expected before then ok tt else missed before exists

-- The row under a code after an update that the database carried out.
abbrev pub row_after : Link → ℕ → Option LinkRow → Text → Option LinkRow → Option LinkRow
row_after l expected before code row =
    if matches expected before && text_eq l.code code
    then Option.map (changed (update_of l expected)) before
    else row

module _ {S : Type 0} (pool : Pool S) (lib : UrlLib) (laws : PoolLaws pool) (ctx : Context)
    (l : Link) (expected : ℕ) (s : S) where
  abbrev first : Answer ℕ × S
  first = pool.update_link ctx (update_of l expected) s

  abbrev second : Answer Bool × S
  second = pool.select_exists ctx l.code first.1

  abbrev before : Option LinkRow
  before = laws.links s l.code

  -- A row that does not match stays what it was.
  row_kept :
      (n : ℕ)
      → first.0 ≡ done n
      → matches expected before ≡ false
      → laws.links first.1 l.code ≡ before
  row_kept n e other =
      (laws.update_link_done ctx (update_of l expected) s n e).1 l.code ∙ rw other refl

  missed_update-missed :
      (n : ℕ) (b : Answer Bool)
      → first.0 ≡ done n
      → second.0 ≡ b
      → matches expected before ≡ false
      → missed_update (exists_result b) ≡ missed before b
  unfolding missed_update
  missed_update-missed n (refused e) e1 e2 other = refl
  missed_update-missed n (done there) e1 e2 other =
      let seen : there ≡ is_some before =
        laws.select_exists_done ctx l.code first.1 there e2 ∙ ap is_some (row_kept n e1 other) in
      ground (arith, seen)

  after_update-result :
      (a : Answer ℕ)
      → first.0 ≡ a
      → (after_update pool lib ctx l.code a first.1).0 ≡ update_result expected before a second.0
  unfolding after_update link_exists
  after_update-result (refused e) h = refl
  after_update-result (done n) h =
      let affected = (laws.update_link_done ctx (update_of l expected) s n h).0 in
      let miss = missed_update-missed n second.0 h refl in
      elim (Bool-cases (matches expected before)) [
        | inl hit ↦ rw (affected, hit) refl
        | inr other ↦ rw (affected, other) (miss other)
      ]

  after_update-links :
      (n : ℕ) (c : Text)
      → first.0 ≡ done n
      → laws.links (after_update pool lib ctx l.code (done n) first.1).1 c
        ≡ row_after l expected before c (laws.links s c)
  unfolding after_update link_exists
  after_update-links n c h =
      let (affected, rows) = laws.update_link_done ctx (update_of l expected) s n h in
      let keeps = laws.select_exists_keeps ctx l.code c first.1 in
      elim (Bool-cases (matches expected before)) [
        | inl hit ↦ rw (affected, hit) (rows c ∙ rw hit refl)
        | inr other ↦ rw (affected, other) (keeps ∙ rows c ∙ rw other refl)
      ]

  -- An update answers by the row before it: with that row at the expected version it succeeds, with
  -- none it reports that there is no such link, with another version a conflict; and in all cases an
  -- error of the database comes back as it is.
  pub update-result :
      (update pool lib ctx l expected s).0 ≡ update_result expected before first.0 second.0
  unfolding update
  update-result = after_update-result first.0 refl

  -- An update that the database carried out changes the columns of that one row, if the row stood at
  -- the expected version, and no row otherwise.
  pub update-links :
      (n : ℕ) (c : Text)
      → first.0 ≡ done n
      → laws.links (update pool lib ctx l expected s).1 c
        ≡ row_after l expected before c (laws.links s c)
  unfolding update
  update-links n c h =
      ap (λ (a : Answer ℕ). laws.links (after_update pool lib ctx l.code a first.1).1 c) h
      ∙ after_update-links n c h
