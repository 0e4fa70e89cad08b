-- ===== src/Application/Management/Parts.antt =====
-- The three parts of a management request, each with one call on the shared repository or clock,
-- and what each part does over any repository that keeps its laws.
use url_shortner.Prelude.{ℕ, ◌≡◌, ◌≢◌, refl, false, some, arith}
use url_shortner.Text.{Text, text_eq_iff, is_empty, trim_space}
use url_shortner.Time.{Time}
use url_shortner.Errors.{Error, Result, ok, err}
use url_shortner.Io.{Io, pure, lift, ◌>>=◌, ◌>>◌}
use url_shortner.Net.{UrlLib}
use url_shortner.Domain.Destination.{DestinationUrl, new_destination_url}
use url_shortner.Domain.Link.{Link}
use url_shortner.Domain.Link.Methods.{update_destination}
use url_shortner.Ports.{Context, LinkRepository, Clock, current_time}
use url_shortner.Ports.Laws.{Table, written, RepositoryLaws, ClockLaws}
use url_shortner.Application.Management.{
  ChangeLinkDestinationRequest, owned_link, method_call, status_method, expiration_method,
  change_link_status, change_link_destination, change_link_expiration,
}
use url_shortner.Application.Management.Change.{
  ChangeRequest, status, destination, expiration, code_of, owner_of, version_of, change,
}

-- The link that the request names, with the caller for its owner and the expected version.
pub record Owned (table : Table) (code owner : Text) (expected : ℕ) (l : Link) : Type 0 where
  pub found : table code ≡ some l
  pub caller : is_empty owner ≡ false
  pub owned : l.owner_id ≡ owner
  pub current : l.version ≡ expected
  pub versioned : expected ≢ 0

-- The link that a change makes of the stored one: the method of the request, at a clock reading.
abbrev pub Makes : UrlLib → ChangeRequest → Link → Link → Type 0
Makes lib (status r) old new =
    (now : Time) × (method_call (status_method r.status now) old ≡ ok new)
Makes lib (destination r) old new =
    (now : Time) × (d : DestinationUrl) × (new_destination_url lib r.destination ≡ ok d)
    × (method_call (update_destination d now) old ≡ ok new)
Makes lib (expiration r) old new =
    (now : Time) × (method_call (expiration_method r.expires_at now) old ≡ ok new)

module _ {S : Type 0} (repository : LinkRepository S) (clock : Clock S) (lib : UrlLib) where
  -- The guards of a change, up to the version check.
  abbrev pub begin : Context → ChangeRequest → Io S Link
  begin ctx (status r) = owned_link repository clock lib ctx r.code r.owner_id r.expected_version
  begin ctx (destination r) =
      owned_link repository clock lib ctx r.code r.owner_id r.expected_version
  begin ctx (expiration r) =
      owned_link repository clock lib ctx r.code r.owner_id r.expected_version

  -- The clock reading and the method of the link.
  abbrev timed : (Time → Io Link (Unit {0})) → Link → Io S Link
  timed method link = do now ← current_time clock; lift (method_call (method now) link)

  -- The new link from the parsed destination on.
  abbrev redirected : Result DestinationUrl → Link → Io S Link
  redirected parsed link = do d ← lift parsed; timed (update_destination d) link

  -- The link that the request makes of the one found, without the write.
  unfoldable pub prepare : ChangeRequest → Link → Io S Link
  prepare (status r) = timed (status_method r.status)
  prepare (destination r) = redirected (new_destination_url lib r.destination)
  prepare (expiration r) = timed (expiration_method r.expires_at)

  -- The write under the expected version.
  unfoldable pub commit : Context → ChangeRequest → Link → Io S Link
  commit ctx r changed = do repository.update ctx changed (version_of r); pure changed

  redirected-commit :
      (ctx : Context) (r : ChangeLinkDestinationRequest) (parsed : Result DestinationUrl)
      (link : Link) (s : S)
      → (lift {S = S} parsed >>= λ d.
            (current_time clock >>= λ now.
            (lift (method_call (update_destination d now) link) >>= λ changed.
            (repository.update ctx changed r.expected_version >> pure changed))))
          s
        ≡ (redirected parsed link >>= commit ctx (destination r)) s
  unfolding commit
  redirected-commit ctx r (ok d) link s = refl
  redirected-commit ctx r (err e) link s = refl

  -- A change is its three parts, one after another.
  pub change-parts :
      (ctx : Context) (r : ChangeRequest) (s : S)
      → change repository clock lib ctx r s
        ≡ (begin ctx r >>= λ link. (prepare r link >>= commit ctx r)) s
  unfolding change change_link_status change_link_destination change_link_expiration prepare commit
  change-parts ctx (status r) s = refl
  change-parts ctx (destination r) s = λ i.
      (begin ctx (destination r) >>= λ link s'.
      redirected-commit ctx r (new_destination_url lib r.destination) link s' i)
        s
  change-parts ctx (expiration r) s = refl

  module _ {table : S → Table} (laws : RepositoryLaws repository table)
      (clock_laws : ClockLaws table clock) where
    open laws use {find_keeps, find_ok, update_ok, update_err}

    owned_link_keeps :
        (ctx : Context) (code owner : Text) (expected : ℕ) (s : S)
        → table (owned_link repository clock lib ctx code owner expected s).1 ≡ table s
    unfolding owned_link
    owned_link_keeps ctx code owner expected s = ground (arith, find_keeps ctx (trim_space code) s)

    owned_link_ok :
        (ctx : Context) (code owner : Text) (expected : ℕ) (s : S) (l : Link)
        → (owned_link repository clock lib ctx code owner expected s).0 ≡ ok l
        → Owned (table s) (trim_space code) (trim_space owner) expected l
    unfolding owned_link
    owned_link_ok ctx code owner expected s l h =
        ground (arith, find_ok ctx (trim_space code) s l, text_eq_iff l.owner_id (trim_space owner))

    pub begin_keeps :
        (ctx : Context) (r : ChangeRequest) (s : S) → table (begin ctx r s).1 ≡ table s
    begin_keeps ctx (status r) = owned_link_keeps ctx r.code r.owner_id r.expected_version
    begin_keeps ctx (destination r) = owned_link_keeps ctx r.code r.owner_id r.expected_version
    begin_keeps ctx (expiration r) = owned_link_keeps ctx r.code r.owner_id r.expected_version

    pub begin_ok :
        (ctx : Context) (r : ChangeRequest) (s : S) (l : Link)
        → (begin ctx r s).0 ≡ ok l
        → Owned (table s) (code_of r) (owner_of r) (version_of r) l
    begin_ok ctx (status r) = owned_link_ok ctx r.code r.owner_id r.expected_version
    begin_ok ctx (destination r) = owned_link_ok ctx r.code r.owner_id r.expected_version
    begin_ok ctx (expiration r) = owned_link_ok ctx r.code r.owner_id r.expected_version

    redirected_keeps :
        (parsed : Result DestinationUrl) (old : Link) (s : S)
        → table (redirected parsed old s).1 ≡ table s
    redirected_keeps (ok d) old s = clock_laws.now_keeps s
    redirected_keeps (err e) old s = refl

    pub prepare_keeps :
        (r : ChangeRequest) (old : Link) (s : S) → table (prepare r old s).1 ≡ table s
    unfolding prepare
    prepare_keeps (status r) old s = clock_laws.now_keeps s
    prepare_keeps (destination r) old s =
        redirected_keeps (new_destination_url lib r.destination) old s
    prepare_keeps (expiration r) old s = clock_laws.now_keeps s

    redirected_ok :
        (parsed : Result DestinationUrl) (old : Link) (s : S) (l : Link)
        → (redirected parsed old s).0 ≡ ok l
        → (now : Time) × (d : DestinationUrl) × (parsed ≡ ok d)
          × (method_call (update_destination d now) old ≡ ok l)
    redirected_ok (ok d) old s l h = (_, d, refl, h)
    redirected_ok (err e) old s l h = absurd (ground arith)

    pub prepare_ok :
        (r : ChangeRequest) (old : Link) (s : S) (l : Link)
        → (prepare r old s).0 ≡ ok l
        → Makes lib r old l
    unfolding prepare
    prepare_ok (status r) old s l h = (_, h)
    prepare_ok (destination r) old s l h =
        redirected_ok (new_destination_url lib r.destination) old s l h
    prepare_ok (expiration r) old s l h = (_, h)

    -- A write that is accepted found a link at the expected version under the code of the new one.
    pub commit_ok :
        (ctx : Context) (r : ChangeRequest) (new : Link) (s : S) (l : Link)
        → (commit ctx r new s).0 ≡ ok l
        → (new ≡ l)
          × (table (commit ctx r new s).1 ≡ written new (table s))
          × ((held : Link) × (table s new.code ≡ some held) × (held.version ≡ version_of r))
    unfolding commit
    commit_ok ctx r new s l h =
        let accepted : (repository.update ctx new (version_of r) s).0 ≡ ok tt = ground arith in
        let (held, here, version, kept) = update_ok ctx new (version_of r) s accepted in
        (ground arith, ground (arith, kept), (held, here, version))

    pub commit_err :
        (ctx : Context) (r : ChangeRequest) (new : Link) (s : S) (e : Error)
        → (commit ctx r new s).0 ≡ err e
        → table (commit ctx r new s).1 ≡ table s
    unfolding commit
    commit_err ctx r new s e h = ground (arith, update_err ctx new (version_of r) s e)
