-- ===== src/Ports/Laws.antt =====
-- What the application relies on in a link repository: the table of links that it stands for, and
-- what each call says of the table and does to it.
use url_shortner.Prelude.{true, ℕ, ◌≡◌, Option, none, some, if◌then◌else◌}
use url_shortner.Text.{Text, text_eq}
use url_shortner.Errors.{is, link_already_exists, Error, ok, err}
use url_shortner.Domain.Link.{Link}
use url_shortner.Ports.{Context, LinkRepository, Clock, CodeGenerator, IdempotencyStore}

abbrev pub Table : Type 0
Table = Text → Option Link

-- The table with one entry written.
abbrev pub written : Link → Table → Table
written l table c = if text_eq l.code c then some l else table c

pub record RepositoryLaws {S : Type 0} (repo : LinkRepository S) (table : S → Table) : Type 0 where
  pub find_keeps :
      (ctx : Context) (code : Text) (s : S) → table (repo.find_by_code ctx code s).1 ≡ table s
  pub find_ok :
      (ctx : Context) (code : Text) (s : S) (l : Link)
      → (repo.find_by_code ctx code s).0 ≡ ok l
      → table s code ≡ some l
  pub insert_ok :
      (ctx : Context) (l : Link) (s : S)
      → (repo.insert ctx l s).0 ≡ ok tt
      → (table s l.code ≡ none) × (table (repo.insert ctx l s).1 ≡ written l (table s))
  pub insert_err :
      (ctx : Context) (l : Link) (s : S) (e : Error)
      → (repo.insert ctx l s).0 ≡ err e
      → table (repo.insert ctx l s).1 ≡ table s
  pub update_ok :
      (ctx : Context) (l : Link) (expected : ℕ) (s : S)
      → (repo.update ctx l expected s).0 ≡ ok tt
      → (stored : Link) × (table s l.code ≡ some stored)
        × (stored.version ≡ expected)
        × (table (repo.update ctx l expected s).1 ≡ written l (table s))
  pub update_err :
      (ctx : Context) (l : Link) (expected : ℕ) (s : S) (e : Error)
      → (repo.update ctx l expected s).0 ≡ err e
      → table (repo.update ctx l expected s).1 ≡ table s

-- While the store behind a repository can be reached, a live lookup finds the link that stands
-- under a code.
pub record FindsStored {S : Type 0} (repo : LinkRepository S) (table : S → Table) : Type 0 where
  pub find_stored :
      (code : Text) (s : S) (l : Link)
      → table s code ≡ some l
      → (repo.find_by_code none code s).0 ≡ ok l

-- While the store behind a repository can be reached, a live insertion succeeds exactly on a code
-- that is free.
pub record InsertsFree {S : Type 0} (repo : LinkRepository S) (table : S → Table) : Type 0 where
  pub insert_free : (l : Link) (s : S) → table s l.code ≡ none → (repo.insert none l s).0 ≡ ok tt
  pub insert_taken :
      (l taken : Link) (s : S)
      → table s l.code ≡ some taken
      → (e : Error) × ((repo.insert none l s).0 ≡ err e) × (is e link_already_exists ≡ true)

-- While the store behind a repository can be reached, a live update of a link that stands at the
-- expected version succeeds.
pub record UpdatesStored {S : Type 0} (repo : LinkRepository S) (table : S → Table) : Type 0 where
  pub update_stored :
      (l stored : Link) (s : S)
      → table s l.code ≡ some stored
      → (repo.update none l stored.version s).0 ≡ ok tt

-- Reading the clock leaves the links alone.
pub record ClockLaws {S : Type 0} (table : S → Table) (clock : Clock S) : Type 0 where
  pub now_keeps : (s : S) → table (clock.now s).1 ≡ table s

-- A generator of codes does not touch the links.
pub record GeneratorLaws {S : Type 0} (table : S → Table) (generator : CodeGenerator S)
    : Type 0 where
  pub generate_keeps : (ctx : Context) (s : S) → table (generator.generate ctx s).1 ≡ table s

-- An idempotency store keeps one link for each owner and key, apart from the table of links.
pub record StoreLaws {S : Type 0} (table : S → Table) (store : IdempotencyStore S) : Type 0 where
  pub record_of : S → Text → Text → Option Link
  pub get_keeps : (ctx : Context) (owner key : Text) (s : S) → (store.get ctx owner key s).1 ≡ s
  pub get_ok :
      (ctx : Context) (owner key : Text) (s : S) (l : Link)
      → (store.get ctx owner key s).0 ≡ ok l
      → record_of s owner key ≡ some l
  pub get_stored :
      (owner key : Text) (s : S) (l : Link)
      → record_of s owner key ≡ some l
      → (store.get none owner key s).0 ≡ ok l
  pub save_keeps :
      (ctx : Context) (owner key : Text) (l : Link) (s : S)
      → table (store.save ctx owner key l s).1 ≡ table s
  pub save_ok :
      (ctx : Context) (owner key : Text) (l : Link) (s : S)
      → (store.save ctx owner key l s).0 ≡ ok tt
      → record_of (store.save ctx owner key l s).1 owner key ≡ some l
