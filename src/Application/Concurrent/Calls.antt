-- ===== src/Application/Concurrent/Calls.antt =====
-- What one call of a request in progress does to the table of links: nothing, or the whole of the
-- request at once.
use mathlib.Core.Path.{subst}
use url_shortner.Prelude.{◌↔◌, ◌%◌, ℕ, ◌<◌, ◌+◌, ◌≡◌, ◌∙◌, sym, ap, inl, refl, arith}
use url_shortner.Time.{uint64_mod}
use url_shortner.Errors.{Result, ok, err}
use url_shortner.Net.{UrlLib}
use url_shortner.Domain.Link.{Link}
use url_shortner.Ports.{Context, LinkRepository, Clock}
use url_shortner.Ports.Laws.{Table, written, RepositoryLaws, ClockLaws}
use url_shortner.Application.Management.Change.{ChangeRequest, code_of, owner_of, version_of}
use url_shortner.Application.Management.Parts.{
  Owned, Makes, begin, prepare, commit, begin_ok, begin_keeps, prepare_ok, prepare_keeps, commit_ok,
  commit_err,
}
use url_shortner.Application.Management.Locking.{written_self, moved, Makes-Mutates}
use url_shortner.Application.Concurrent.{
  Phase, waiting, holding, ready, finished, begun, prepared, advance,
}
use url_shortner.Application.Concurrent.Growth.{IsKeyed, Grows, write-Grows}
use url_shortner.Application.Concurrent.Tracking.{Tracked, Sees, Tracked-Owned}

-- What one call of a request does: nothing to the table, or the whole request at once.
pub data Effect (lib : UrlLib) (r : ChangeRequest) (t : Table) (p : Phase) (t' : Table) (p' : Phase)
    : Type 0 where
  quiet :
      t' ≡ t
      → ((l : Link) → (p' ≡ finished (ok l)) ↔ (p ≡ finished (ok l)))
      → Effect lib r t p t' p'
  changed :
      (old new : Link)
      → Owned t (code_of r) (owner_of r) (version_of r) old
      → Makes lib r old new
      → t' ≡ written new t
      → p ≡ ready new
      → p' ≡ finished (ok new)
      → Effect lib r t p t' p'

next_version_rises : (v o n : ℕ) → v + 1 < uint64_mod → o ≡ v → n ≡ (o + 1) % uint64_mod → v < n
next_version_rises v o n bound same next = omega arith

-- What a change makes of a stored link stands under the same code, with the next version.
pub next_link :
    (lib : UrlLib) (t : Table) (r : ChangeRequest) (old new : Link)
    → IsKeyed t
    → version_of r + 1 < uint64_mod
    → Owned t (code_of r) (owner_of r) (version_of r) old
    → Makes lib r old new
    → (new.code ≡ code_of r) × (version_of r < new.version)
next_link lib t r old new keyed bound owned made =
    let (version, code) = moved old new (Makes-Mutates lib r old new made) in
    (
      code ∙ keyed (code_of r) old owned.found,
      next_version_rises (version_of r) old.version new.version bound owned.current version,
    )

pub served-Grows :
    (lib : UrlLib) (t : Table) (r : ChangeRequest) (old new : Link)
    → IsKeyed t
    → version_of r + 1 < uint64_mod
    → Owned t (code_of r) (owner_of r) (version_of r) old
    → Makes lib r old new
    → Grows t (written new t)
served-Grows lib t r old new keyed bound owned made =
    let (code, up) = next_link lib t r old new keyed bound owned made in
    write-Grows t old new (ap t code ∙ owned.found)
      (subst (λ (n : ℕ). n < new.version) (sym owned.current) up)

module _ {S : Type 0} (repository : LinkRepository S) (clock : Clock S) (lib : UrlLib)
    {table : S → Table} (laws : RepositoryLaws repository table)
    (clock_laws : ClockLaws table clock) (ctx : Context) (r : ChangeRequest) (s : S) where
  begun_lem :
      (found : Result Link)
      → (begin repository clock lib ctx r s).0 ≡ found
      → IsKeyed (table s)
      → Sees lib (table s) r (begun found)
        × ((l : Link) → (begun found ≡ finished (ok l)) ↔ (waiting ≡ finished (ok l)))
  unfolding Sees
  begun_lem (ok l) h keyed =
      let owned = begin_ok repository clock lib laws clock_laws ctx r s l h in
      (
        record {
          stored = l;
          here = owned.found;
          later = inl refl;
          keyed = keyed (code_of r) l owned.found;
          caller = owned.caller;
          owned = owned.owned;
          current = owned.current;
          versioned = owned.versioned;
        },
        λ l'. (λ e. absurd (ground arith), λ e. absurd (ground arith)),
      )
  begun_lem (err e) h keyed = (tt, λ l'. (λ e'. absurd (ground arith), λ e'. absurd (ground arith)))

  prepared_lem :
      (old : Link) (made : Result Link)
      → (prepare repository clock lib r old s).0 ≡ made
      → Tracked (table s) r old
      → Sees lib (table s) r (prepared made)
        × ((l : Link) → (prepared made ≡ finished (ok l)) ↔ (holding old ≡ finished (ok l)))
  unfolding Sees
  prepared_lem old (ok new) h tracked = (
    (old, tracked, prepare_ok repository clock lib laws clock_laws r old s new h),
    λ l'. (λ e. absurd (ground arith), λ e. absurd (ground arith)),
  )
  prepared_lem old (err e) h tracked =
      (tt, λ l'. (λ e'. absurd (ground arith), λ e'. absurd (ground arith)))

  committed_lem :
      (old new : Link) (outcome : Result Link)
      → (commit repository clock lib ctx r new s).0 ≡ outcome
      → IsKeyed (table s)
      → version_of r + 1 < uint64_mod
      → Tracked (table s) r old
      → Makes lib r old new
      → let t' = table (commit repository clock lib ctx r new s).1 in
        Effect lib r (table s) (ready new) t' (finished outcome) × Sees lib t' r (finished outcome)
  unfolding Sees
  committed_lem old new (ok l) h keyed bound tracked made =
      let (same, kept, (held, here, version)) =
        commit_ok repository clock lib laws clock_laws ctx r new s l h in
      let t = table s in
      let code : new.code ≡ code_of r =
        (moved old new (Makes-Mutates lib r old new made)).1 ∙ tracked.keyed in
      let owned = Tracked-Owned t r old held tracked (ap t (sym code) ∙ here) version in
      let (_, up) = next_link lib t r old new keyed bound owned made in
      (
        changed old new owned made kept refl (ap (λ (x : Link). finished (ok x)) (sym same)),
        (new, ap (λ (x : Table). x (code_of r)) kept ∙ written_self t new (code_of r) code, up),
      )
  committed_lem old new (err e) h keyed bound tracked made = (
    quiet (commit_err repository clock lib laws clock_laws ctx r new s e h)
        (λ l. (λ e'. absurd (ground arith), λ e'. absurd (ground arith))),
    tt,
  )

module _ {S : Type 0} (repository : LinkRepository S) (clock : Clock S) (lib : UrlLib)
    {table : S → Table} (laws : RepositoryLaws repository table)
    (clock_laws : ClockLaws table clock) (request : ℕ → Context × ChangeRequest) (i : ℕ) where
  -- A call of a request changes the table only when the whole request is done at once, and what the
  -- request knows of the table stays true.
  pub advance_lem :
      (p : Phase) (s : S)
      → version_of (request i).1 + 1 < uint64_mod
      → IsKeyed (table s)
      → Sees lib (table s) (request i).1 p
      → let (p', s') = advance repository clock lib request i p s in
        Effect lib (request i).1 (table s) p (table s') p' × Sees lib (table s') (request i).1 p'
  unfolding advance Sees
  advance_lem waiting s bound keyed sees =
      let (ctx, r) = request i in
      let same = begin_keeps repository clock lib laws clock_laws ctx r s in
      let (sees', none_yet) =
        begun_lem repository clock lib laws clock_laws ctx r s
          (begin repository clock lib ctx r s).0 refl keyed in
      (
        quiet same none_yet,
        subst (λ (t : Table). Sees lib t r (begun (begin repository clock lib ctx r s).0))
            (sym same) sees',
      )
  advance_lem (holding old) s bound keyed sees =
      let (ctx, r) = request i in
      let same = prepare_keeps repository clock lib laws clock_laws r old s in
      let made = (prepare repository clock lib r old s).0 in
      let (sees', none_yet) =
        prepared_lem repository clock lib laws clock_laws ctx r s old made refl sees in
      (quiet same none_yet, subst (λ (t : Table). Sees lib t r (prepared made)) (sym same) sees')
  advance_lem (ready new) s bound keyed sees =
      let (ctx, r) = request i in
      let (old, tracked, made) = sees in
      committed_lem repository clock lib laws clock_laws ctx r s old new
        (commit repository clock lib ctx r new s).0 refl keyed bound tracked made
  advance_lem (finished outcome) s bound keyed sees = (quiet refl (λ l. (λ e. e, λ e. e)), sees)
