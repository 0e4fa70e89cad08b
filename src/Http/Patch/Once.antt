-- ===== src/Http/Patch/Once.antt =====
-- An If-Match header lets one PATCH of a link through, and the ETag of the answer is the next one.
use url_shortner.Prelude.{ℕ, ◌+◌, ◌<◌, ◌≡◌, ◌≢◌, ◌∙◌, sym, ap, Option, arith}
use url_shortner.Text.{Text, trim_space}
use url_shortner.Time.{Time, uint64_mod}
use url_shortner.Errors.{ok}
use url_shortner.Net.{UrlLib}
use url_shortner.Domain.Link.{Link}
use url_shortner.Ports.{Context, LinkRepository, Clock}
use url_shortner.Ports.Laws.{Table, RepositoryLaws, ClockLaws}
use url_shortner.Application.Management.Change.{ChangeRequest, code_of, version_of, change}
use url_shortner.Application.Management.Locking.{IsSound, change_next_version, no_lost_update}
use url_shortner.Http.{Response, refused, shown, parse_if_match}
use url_shortner.Http.Etag.{etag, managed_link_response, parse_if_match-etag}
use url_shortner.Http.Patch.{PatchRequest, patch}
use url_shortner.Http.Patch.Refusals.{Answered, patch-Answered}

module _ {S : Type 0} (repository : LinkRepository S) (clock : Clock S) (lib : UrlLib)
    (parse_time : Text → Option Time) {table : S → Table} (laws : RepositoryLaws repository table)
    (clock_laws : ClockLaws table clock) where
  -- The change behind an answer that shows a link.
  record Changed (ctx : Context) (q : PatchRequest) (s : S) (l : Link) (s' : S) : Type 0 where
    pub r : ChangeRequest
    pub version : ℕ
    pub matched : parse_if_match (trim_space q.if_match_header) ≡ ok version
    pub code : code_of r ≡ trim_space q.code
    pub expected : version_of r ≡ version
    pub changed : change repository clock lib ctx r s ≡ (ok l, s')

  shown-Changed :
      (ctx : Context) (q : PatchRequest) (s : S) (o : Response × S) (l : Link)
      → Answered repository clock lib parse_time laws clock_laws ctx q s o
      → o.0 ≡ shown l
      → Changed ctx q s l o.1
  shown-Changed ctx q s (refused n, s') l told h = absurd (ground arith)
  shown-Changed ctx q s (shown k, s') l (version, matched, (r, code, owner, expected, changed)) h =
      let same : k ≡ l = cc in
      record {
        r = r;
        version = version;
        matched = matched;
        code = code;
        expected = expected;
        changed = changed ∙ ap (λ (x : Link). (ok x, s')) same;
      }

  patched :
      (ctx : Context) (q : PatchRequest) (s : S) (l : Link)
      → (patch repository clock lib parse_time ctx q s).0 ≡ shown l
      → Changed ctx q s l (patch repository clock lib parse_time ctx q s).1
  patched ctx q s l h =
      shown-Changed ctx q s (patch repository clock lib parse_time ctx q s) l
        (patch-Answered repository clock lib parse_time laws clock_laws ctx q s) h

  -- On a sound table, a PATCH that shows a link, of a version below the highest, spends its If-Match
  -- header: the ETag of the answer reads as the version after the one that the header names, and no
  -- PATCH of the same code with the same header shows a link in the state that the first one left.
  pub patch_once :
      (ctx ctx' : Context) (q q' : PatchRequest) (s : S) (l l' : Link) (version : ℕ)
      → IsSound (table s)
      → (patch repository clock lib parse_time ctx q s).0 ≡ shown l
      → parse_if_match (trim_space q.if_match_header) ≡ ok version
      → version + 1 < uint64_mod
      → trim_space q'.code ≡ trim_space q.code
      → trim_space q'.if_match_header ≡ trim_space q.if_match_header
      → (parse_if_match (managed_link_response l).etag_header ≡ ok (version + 1))
        × ((patch repository clock lib parse_time ctx' q'
              (patch repository clock lib parse_time ctx q s).1).0
            ≢ shown l')
  unfolding managed_link_response etag
  patch_once ctx ctx' q q' s l l' version sound h named bound same_code same_header =
      let first = patched ctx q s l h in
      let read : first.version ≡ version =
        (let e : ok first.version ≡ ok version = sym first.matched ∙ named in cc) in
      let done : (change repository clock lib ctx first.r s).0 ≡ ok l =
        ap (λ x. x.0) first.changed in
      let (next, _) =
        change_next_version repository clock lib laws clock_laws ctx first.r s l sound done in
      let expects = first.expected in
      let number : l.version ≡ version + 1 = omega arith in
      (
        ap (λ (n : ℕ). parse_if_match (etag n)) number
            ∙ parse_if_match-etag (version + 1) (omega arith) bound,
        λ h'.
            let s' = (patch repository clock lib parse_time ctx q s).1 in
            let second = patched ctx' q' s' l' h' in
            let again : second.version ≡ version =
              (let e : ok second.version ≡ ok version =
                  sym second.matched ∙ ap parse_if_match same_header ∙ named in
                cc) in
            let left : (change repository clock lib ctx first.r s).1 ≡ s' =
              ap (λ x. x.1) first.changed in
            no_lost_update repository clock lib laws clock_laws ctx ctx' first.r second.r s l l'
              sound done (second.code ∙ same_code ∙ sym first.code)
              (second.expected ∙ again ∙ sym read ∙ sym first.expected)
              (ap (λ (t : S). (change repository clock lib ctx' second.r t).0) left
                ∙ ap (λ x. x.0) second.changed),
      )
