-- ===== src/Memory/Repository/Refinement.antt =====
-- The in-memory repository meets the laws of a link repository.
use mathlib.Core.Path.{fun_ext}
use url_shortner.Prelude.{refl, ℕ, ◌≡◌, ◌∙◌, ◌≢◌, ap, none, some, arith, Option-cases, inl, inr}
use url_shortner.Prelude.Maps.{lookup, lookup-insert, lookup-insert_self}
use url_shortner.Prelude.Maps
use url_shortner.Text.{Text, text_key}
use url_shortner.Errors.{is, link_already_exists, sentinel, fail, version_conflict, Error, ok, err}
use url_shortner.Domain.Link.{Link}
use url_shortner.Ports.{Context}
use url_shortner.Ports.Laws.{
  UpdatesStored, InsertsFree, FindsStored, Table, written, RepositoryLaws,
}
use url_shortner.Memory.Repository.{Links, insert, find_by_code, update, repository}

abbrev pub table : Links → Table
table links code = lookup code links

update_stale :
    (l : Link) (expected : ℕ) (s : Links) {stored : Link}
    → lookup l.code s ≡ some stored
    → stored.version ≢ expected
    → update none l expected s ≡ (fail version_conflict, s)
unfolding update
update_stale l expected s held moved = ground arith

table-insert : (l : Link) (s : Links) → table (Maps.insert l.code l s) ≡ written l (table s)
table-insert l s = fun_ext λ c. lookup-insert l.code c l s

find_by_code_state : (ctx : Context) (code : Text) (s : Links) → (find_by_code ctx code s).1 ≡ s
unfolding find_by_code
find_by_code_state ctx code s = ground arith

find_by_code_hit :
    (ctx : Context) (code : Text) (s : Links) (l : Link)
    → (find_by_code ctx code s).0 ≡ ok l
    → table s code ≡ some l
unfolding find_by_code
find_by_code_hit ctx code s l h = ground arith

insert_ok :
    (ctx : Context) (l : Link) (s : Links)
    → (insert ctx l s).0 ≡ ok tt
    → (table s l.code ≡ none) × ((insert ctx l s).1 ≡ Maps.insert l.code l s)
unfolding insert
insert_ok ctx l s h = (ground arith, ground arith)

insert_err :
    (ctx : Context) (l : Link) (s : Links) (e : Error)
    → (insert ctx l s).0 ≡ err e
    → (insert ctx l s).1 ≡ s
unfolding insert
insert_err ctx l s e h = ground arith

update_ok :
    (ctx : Context) (l : Link) (expected : ℕ) (s : Links)
    → (update ctx l expected s).0 ≡ ok tt
    → (stored : Link) × (table s l.code ≡ some stored)
      × (stored.version ≡ expected)
      × ((update ctx l expected s).1 ≡ Maps.insert l.code l s)
unfolding update
update_ok ctx l expected s h = elim (Option-cases (lookup l.code s)) [
  | inl e ↦ absurd (ground arith)
  | inr (stored, e) ↦ (stored, e, ground arith, ground arith)
]

update_err :
    (ctx : Context) (l : Link) (expected : ℕ) (s : Links) (e : Error)
    → (update ctx l expected s).0 ≡ err e
    → (update ctx l expected s).1 ≡ s
unfolding update
update_err ctx l expected s e h = ground arith

-- If two updates of one code expect the same version, and the first goes through with a link of
-- another version, then the second is refused with a version conflict and changes nothing.
pub update_race :
    (a b : Link) (expected : ℕ) (s : Links)
    → a.code ≡ b.code
    → a.version ≢ expected
    → (update none a expected s).0 ≡ ok tt
    → update none b expected (update none a expected s).1
      ≡ (fail version_conflict, (update none a expected s).1)
update_race a b expected s same_code moved h =
    let (stored, found, version, new) = update_ok none a expected s h in
    let held : lookup b.code (update none a expected s).1 ≡ some a =
      rw (new, ← same_code) (lookup-insert_self a.code a s) in
    update_stale b expected (update none a expected s).1 held moved

-- The repository over a map of links keeps the contract of the port, for the table that looks a code up in
-- the map.
pub repository_laws : RepositoryLaws repository table
repository_laws = record {
  find_keeps = λ ctx code s. ap table (find_by_code_state ctx code s);
  find_ok = find_by_code_hit;
  insert_ok =
      λ ctx l s h. let (free, new) = insert_ok ctx l s h in (free, ap table new ∙ table-insert l s);
  insert_err = λ ctx l s e h. ap table (insert_err ctx l s e h);
  update_ok = λ ctx l expected s h.
      let (stored, found, version, new) = update_ok ctx l expected s h in
      (stored, found, version, ap table new ∙ table-insert l s);
  update_err = λ ctx l expected s e h. ap table (update_err ctx l expected s e h);
}

find_by_code_stored :
    (code : Text) (s : Links) (l : Link)
    → table s code ≡ some l
    → (find_by_code none code s).0 ≡ ok l
unfolding find_by_code
find_by_code_stored code s l h = ground arith

-- The map of links can always be reached.
pub FindsStored-repository : FindsStored repository table
FindsStored-repository = record { find_stored = find_by_code_stored }

insert_free : (l : Link) (s : Links) → lookup l.code s ≡ none → (insert none l s).0 ≡ ok tt
unfolding insert
insert_free l s free = ground arith

insert_taken :
    (l taken : Link) (s : Links)
    → lookup l.code s ≡ some taken
    → (insert none l s).0 ≡ fail link_already_exists
unfolding insert
insert_taken l taken s there = ground arith

pub InsertsFree-repository : InsertsFree repository table
unfolding is
InsertsFree-repository = record {
  insert_free = insert_free;
  insert_taken =
      λ l taken s there. (sentinel link_already_exists, insert_taken l taken s there, refl);
}

update_stored :
    (l stored : Link) (s : Links)
    → lookup l.code s ≡ some stored
    → (update none l stored.version s).0 ≡ ok tt
unfolding update
update_stored l stored s there = ground arith

pub UpdatesStored-repository : UpdatesStored repository table
UpdatesStored-repository = record { update_stored = update_stored }
