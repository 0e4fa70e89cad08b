-- ===== src/Application/Management/Success.antt =====
-- When a management request succeeds: over a repository whose store can be reached.
use url_shortner.Io.Inversion.{bind-ok}
use url_shortner.Application.Concurrent.Growth.{IsKeyed}
use mathlib.Core.Path.{subst}
use url_shortner.Io.{◌>>=◌, continue}
use url_shortner.Prelude.{inl, inr, ℕ, ◌≡◌, ◌∙◌, sym, ap, none, some, arith, ◌↔◌}
use url_shortner.Text.{Text, text_eq_iff, trim_space}
use url_shortner.Time.{Time}
use url_shortner.Errors.{Result-cases, Result, ok, err}
use url_shortner.Net.{UrlLib}
use url_shortner.Domain.Destination.{DestinationUrl, new_destination_url}
use url_shortner.Domain.Link.{Link}
use url_shortner.Domain.Link.Methods.{update_destination}
use url_shortner.Ports.{LinkRepository, Clock}
use url_shortner.Ports.Laws.{Table, RepositoryLaws, ClockLaws, FindsStored, UpdatesStored}
use url_shortner.Application.Management.{owned_link, method_call, status_method, expiration_method}
use url_shortner.Application.Management.Change.{
  ChangeRequest, status, destination, expiration, code_of, owner_of, version_of, change,
}
use url_shortner.Application.Management.Parts.{
  commit_ok, Owned, Makes, begin, prepare, commit, prepare_keeps, change-parts,
}
use url_shortner.Application.Management.Locking.{moved, Makes-Mutates}
use url_shortner.Application.Management.Outcome.{change_ok}

-- What the method of the request makes of the stored link at the time `now`, the destination parsed.
abbrev pub MakesAt : UrlLib → ChangeRequest → Time → Link → Link → Type 0
MakesAt lib (status r) now old new = method_call (status_method r.status now) old ≡ ok new
MakesAt lib (destination r) now old new =
    (d : DestinationUrl) × (new_destination_url lib r.destination ≡ ok d)
    × (method_call (update_destination d now) old ≡ ok new)
MakesAt lib (expiration r) now old new =
    method_call (expiration_method r.expires_at now) old ≡ ok new

MakesAt-Makes :
    (lib : UrlLib) (r : ChangeRequest) (now : Time) (old new : Link)
    → MakesAt lib r now old new
    → Makes lib r old new
MakesAt-Makes lib (status r) now old new h = (now, h)
MakesAt-Makes lib (destination r) now old new (d, parsed, h) = (now, d, parsed, h)
MakesAt-Makes lib (expiration r) now old new h = (now, h)

module _ {S : Type 0} (repository : LinkRepository S) (clock : Clock S) (lib : UrlLib)
    {table : S → Table} (laws : RepositoryLaws repository table)
    (clock_laws : ClockLaws table clock) (finds : FindsStored repository table)
    (updates : UpdatesStored repository table) where
  -- What the clock reads once the link of the request is looked up.
  abbrev pub time_of : ChangeRequest → S → Time
  time_of r s = (clock.now (repository.find_by_code none (code_of r) s).1).0

  owned_link_found :
      (code owner : Text) (expected : ℕ) (s : S) (old : Link)
      → Owned (table s) (trim_space code) (trim_space owner) expected old
      → owned_link repository clock lib none code owner expected s
        ≡ (ok old, (repository.find_by_code none (trim_space code) s).1)
  unfolding owned_link
  owned_link_found code owner expected s old owned =
      let there = owned.found in
      let caller = owned.caller in
      let mine = owned.owned in
      let current = owned.current in
      let versioned = owned.versioned in
      let found = finds.find_stored (trim_space code) s old there in
      ground (arith, text_eq_iff old.owner_id (trim_space owner))

  begin_found :
      (r : ChangeRequest) (s : S) (old : Link)
      → Owned (table s) (code_of r) (owner_of r) (version_of r) old
      → begin repository clock lib none r s
        ≡ (ok old, (repository.find_by_code none (code_of r) s).1)
  begin_found (status r) = owned_link_found r.code r.owner_id r.expected_version
  begin_found (destination r) = owned_link_found r.code r.owner_id r.expected_version
  begin_found (expiration r) = owned_link_found r.code r.owner_id r.expected_version

  prepared_lem :
      (r : ChangeRequest) (s : S) (old new : Link)
      → MakesAt lib r (clock.now s).0 old new
      → (prepare repository clock lib r old s).0 ≡ ok new
  unfolding prepare
  prepared_lem (status r) s old new h = h
  prepared_lem (destination r) s old new (d, parsed, h) = rw parsed h
  prepared_lem (expiration r) s old new h = h

  committed_lem :
      (r : ChangeRequest) (s : S) (old new : Link)
      → table s new.code ≡ some old
      → old.version ≡ version_of r
      → (commit repository clock lib none r new s).0 ≡ ok new
  unfolding commit
  committed_lem r s old new there current =
      let accepted : (repository.update none new (version_of r) s).0 ≡ ok tt =
        subst (λ (n : ℕ). (repository.update none new n s).0 ≡ ok tt) current
          (updates.update_stored new old s there) in
      ground arith

  -- What comes after the guards, once they have passed.
  rest_lem :
      (r : ChangeRequest) (s : S) (old : Link)
      → Owned (table s) (code_of r) (owner_of r) (version_of r) old
      → let (made, s2) =
          prepare repository clock lib r old (repository.find_by_code none (code_of r) s).1 in
        change repository clock lib none r s ≡ continue made (commit repository clock lib none r) s2
  rest_lem r s old owned =
      change-parts repository clock lib none r s
      ∙ ap
          (λ (x : Result Link × S).
            continue x.0
              (λ link. (prepare repository clock lib r link >>= commit repository clock lib none r))
              x.1)
          (begin_found r s old owned)

  succeeds :
      (r : ChangeRequest) (s : S) (old new : Link)
      → IsKeyed (table s)
      → Owned (table s) (code_of r) (owner_of r) (version_of r) old
      → MakesAt lib r (time_of r s) old new
      → (change repository clock lib none r s).0 ≡ ok new
  succeeds r s old new keyed owned makes =
      let s1 = (repository.find_by_code none (code_of r) s).1 in
      let s2 = (prepare repository clock lib r old s1).1 in
      let write = commit repository clock lib none r in
      let kept : table s2 ≡ table s =
        prepare_keeps repository clock lib laws clock_laws r old s1
        ∙ laws.find_keeps none (code_of r) s in
      let (_, code) =
        moved old new (Makes-Mutates lib r old new (MakesAt-Makes lib r _ old new makes)) in
      let there : table s2 new.code ≡ some old =
        ap (λ (t : Table). t new.code) kept
        ∙ ap (table s) (code ∙ keyed (code_of r) old owned.found)
        ∙ owned.found in
      ap (λ (x : Result Link × S). x.0) (rest_lem r s old owned)
      ∙ ap (λ (m : Result Link). (continue m write s2).0) (prepared_lem r s1 old new makes)
      ∙ committed_lem r s2 old new there owned.current

  made_lem :
      (r : ChangeRequest) (s : S) (old new : Link)
      → (prepare repository clock lib r old s).0 ≡ ok new
      → MakesAt lib r (clock.now s).0 old new
  unfolding prepare
  made_lem (status r) s old new h = h
  made_lem (destination r) s old new h =
      elim (Result-cases (new_destination_url lib r.destination)) [
        | inl (d, parsed) ↦ (d, parsed, rw parsed at h)
        | inr (e, refused) ↦ absurd (let gone : err e ≡ ok new = rw refused at h in ground arith)
      ]
  made_lem (expiration r) s old new h = h

  succeeded :
      (r : ChangeRequest) (s : S) (new : Link)
      → (change repository clock lib none r s).0 ≡ ok new
      → (old : Link) × Owned (table s) (code_of r) (owner_of r) (version_of r) old
        × MakesAt lib r (time_of r s) old new
  succeeded r s new h =
      let (old, owned, _, _) = change_ok repository clock lib laws clock_laws none r s new h in
      let s1 = (repository.find_by_code none (code_of r) s).1 in
      let write = commit repository clock lib none r in
      let (made, built, wrote, _) =
        bind-ok (prepare repository clock lib r old) write s1
          (ap (λ (x : Result Link × S). x.0) (sym (rest_lem r s old owned)) ∙ h) in
      let (same, _, _) = commit_ok repository clock lib laws clock_laws none r made _ new wrote in
      (old, owned, made_lem r s1 old new (built ∙ ap ok same))

  -- Over a repository whose store can be reached, on a table where each link stands under its code,
  -- a live change is answered with a link exactly if the link stored under the trimmed code is owned
  -- by the trimmed owner, which is not empty, and at the expected version, which is not 0, and the
  -- method of the request makes the answered link of it at the time that the clock reads after the
  -- lookup.
  pub change_ok_iff :
      (r : ChangeRequest) (s : S) (new : Link)
      → IsKeyed (table s)
      → ((change repository clock lib none r s).0 ≡ ok new) ↔ (
          (old : Link) × Owned (table s) (code_of r) (owner_of r) (version_of r) old
          × MakesAt lib r (time_of r s) old new)
  change_ok_iff r s new keyed = (
    succeeded r s new,
    λ h. let (old, owned, makes) = h in succeeds r s old new keyed owned makes,
  )
