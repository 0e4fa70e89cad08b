-- ===== src/Application/Management/Outcome.antt =====
-- What a management request does to the table of links, over any repository that keeps its laws.
use url_shortner.Io.{◌>>=◌}
use url_shortner.Prelude.{◌≡◌, ◌∙◌, sym, ap, inl, inr}
use url_shortner.Errors.{Error, ok, err}
use url_shortner.Io.Inversion.{bind-ok, bind-err}
use url_shortner.Net.{UrlLib}
use url_shortner.Domain.Link.{Link}
use url_shortner.Ports.{Context, LinkRepository, Clock}
use url_shortner.Ports.Laws.{Table, written, RepositoryLaws, ClockLaws}
use url_shortner.Application.Management.Change.{
  ChangeRequest, code_of, owner_of, version_of, change,
}
use url_shortner.Application.Management.Parts.{
  Owned, Makes, begin, prepare, commit, begin_ok, begin_keeps, prepare_ok, prepare_keeps, commit_ok,
  commit_err, change-parts,
}

module _ {S : Type 0} (repository : LinkRepository S) (clock : Clock S) (lib : UrlLib) where
  module _ {table : S → Table} (laws : RepositoryLaws repository table)
      (clock_laws : ClockLaws table clock) where
    -- A change that succeeds found a link under the trimmed code, owned by the trimmed owner and at
    -- the expected version, which is not 0; it returns what the method of the request makes of that
    -- link, and the table differs by the returned link alone.
    pub change_ok :
        (ctx : Context) (r : ChangeRequest) (s : S) (l : Link)
        → (change repository clock lib ctx r s).0 ≡ ok l
        → (old : Link) × Owned (table s) (code_of r) (owner_of r) (version_of r) old
          × Makes lib r old l
          × (table (change repository clock lib ctx r s).1 ≡ written l (table s))
    change_ok ctx r s l h =
        let split = change-parts repository clock lib ctx r s in
        let read = begin repository clock lib ctx r in
        let made = prepare repository clock lib r in
        let wrote = commit repository clock lib ctx r in
        let (old, found, rest, same) =
          bind-ok read (λ link. made link >>= wrote) s (ap (λ x. x.0) (sym split) ∙ h) in
        let s1 = (read s).1 in
        let (new, built, written_ok, same') = bind-ok (made old) wrote s1 rest in
        let s2 = (made old s1).1 in
        let (returned, kept, _) =
          commit_ok repository clock lib laws clock_laws ctx r new s2 l written_ok in
        let unchanged =
          prepare_keeps repository clock lib laws clock_laws r old s1
          ∙ begin_keeps repository clock lib laws clock_laws ctx r s in
        (
          old,
          begin_ok repository clock lib laws clock_laws ctx r s old found,
          prepare_ok repository clock lib laws clock_laws r old s1 l (built ∙ ap ok returned),
          ap (λ x. table x.1) split
              ∙ ap table (same ∙ same')
              ∙ kept
              ∙ (λ i. written (returned i) (unchanged i)),
        )

    -- A change that fails, for whatever reason, leaves every link as it was.
    pub change_err :
        (ctx : Context) (r : ChangeRequest) (s : S) (e : Error)
        → (change repository clock lib ctx r s).0 ≡ err e
        → table (change repository clock lib ctx r s).1 ≡ table s
    change_err ctx r s e h =
        let split = change-parts repository clock lib ctx r s in
        let read = begin repository clock lib ctx r in
        let made = prepare repository clock lib r in
        let wrote = commit repository clock lib ctx r in
        let s1 = (read s).1 in
        let found = begin_keeps repository clock lib laws clock_laws ctx r s in
        ap (λ x. table x.1) split
        ∙ elim (bind-err read (λ link. made link >>= wrote) s {e = e}
            (ap (λ x. x.0) (sym split) ∙ h)) [
              | inl (_, same) ↦ ap table same ∙ found
              | inr (old, _, failed, same) ↦
                  let built = prepare_keeps repository clock lib laws clock_laws r old s1 in
                  elim (bind-err (made old) wrote s1 {e = e} failed) [
                    | inl (_, same') ↦ ap table (same ∙ same') ∙ built ∙ found
                    | inr (new, _, failed', same') ↦
                        ap table (same ∙ same')
                        ∙ commit_err repository clock lib laws clock_laws ctx r new (made old s1).1
                            e failed'
                        ∙ built
                        ∙ found
                  ]
            ]
