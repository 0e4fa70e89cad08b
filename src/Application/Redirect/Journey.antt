-- ===== src/Application/Redirect/Journey.antt =====
-- From the creation of a link to a redirect by it.
use url_shortner.Prelude.{sym, ap, ◌≡◌, ◌∙◌, true, false, Option, none, some, inl, inr, arith}
use url_shortner.Text.{Text, text_eq_refl}
use url_shortner.Time.{Time, is_zero}
use url_shortner.Errors.{Result, ok}
use url_shortner.Net.{UrlLib}
use url_shortner.Domain.Status.{active}
use url_shortner.Domain.Destination.{DestinationUrl}
use url_shortner.Domain.Link.{Link, new_link}
use url_shortner.Domain.Link.Validity.{IsValid, new_link-IsValid}
use url_shortner.Domain.Mapping.{can_redirect}
use url_shortner.Domain.Mapping.Agreement.{
  Before, projection, redirect_mapping-IsValid, can_redirect_iff,
}
use url_shortner.Ports.{Context, LinkRepository, LinkResolver, Clock, IdempotencyStore}
use url_shortner.Ports.Laws.{
  written, Table, RepositoryLaws, FindsStored, ClockLaws, GeneratorLaws, StoreLaws,
}
use url_shortner.Application.Cache.{repository_resolve}
use url_shortner.Application.Creation.{
  CreateGeneratedLink, CreateGeneratedLinkRequest, create_generated_link, active_store,
}
use url_shortner.Application.Creation.Replay.{create_ok}
use url_shortner.Application.Redirect.{redirect_link}

-- The resolver that asks a repository.
abbrev pub asking : {S : Type 0} → LinkRepository S → LinkResolver S
asking repository = record { resolve = repository_resolve repository }

pub new_link-active :
    (code : Text) (d : DestinationUrl) (owner : Text) (at : Time) (e : Option Time) (l : Link)
    → new_link code d owner at e ≡ ok l
    → l.status ≡ active
unfolding new_link
new_link-active code d owner at e l h = ground arith

module _ {S : Type 0} (repository : LinkRepository S) (clock : Clock S) {table : S → Table}
    (finds : FindsStored repository table) where
  -- The time at which a redirect by this code reads the clock.
  abbrev pub reading : Text → S → Time
  reading code s = (clock.now (repository_resolve repository none code s).1).0

  resolved :
      (l : Link) (s : S)
      → table s l.code ≡ some l
      → IsValid l
      → (repository_resolve repository none l.code s).0 ≡ ok (projection l)
  unfolding repository_resolve
  resolved l s held valid =
      ground (arith, finds.find_stored l.code s l held, redirect_mapping-IsValid l valid)

  answered :
      (l : Link) (s : S)
      → (repository_resolve repository none l.code s).0 ≡ ok (projection l)
      → can_redirect (projection l) (reading l.code s) ≡ true
      → (redirect_link (asking repository) clock none (record { code = l.code }) s).0
        ≡ ok (record { destination = l.destination.value })
  unfolding redirect_link
  answered l s hit open_now = ground arith

  -- A valid, active link that stands in the table redirects to its destination at every clock
  -- reading but the zero time that comes before its expiration.
  pub stored_redirects :
      (l : Link) (s : S)
      → table s l.code ≡ some l
      → IsValid l
      → l.status ≡ active
      → is_zero (reading l.code s) ≡ false
      → Before l.expires_at (reading l.code s)
      → (redirect_link (asking repository) clock none (record { code = l.code }) s).0
        ≡ ok (record { destination = l.destination.value })
  stored_redirects l s held valid live there early =
      answered l s (resolved l s held valid)
        ((can_redirect_iff (projection l) (reading l.code s)).1 (there, live, early))

module _ {S : Type 0} (c : CreateGeneratedLink S) (lib : UrlLib) {table : S → Table}
    (laws : RepositoryLaws c.repository table) (finds : FindsStored c.repository table)
    (clock_laws : ClockLaws table c.clock) (generator_laws : GeneratorLaws table c.generator)
    (no_store : c.idempotency_store ≡ none) where
  no_laws : (store : IdempotencyStore S) → c.idempotency_store ≡ some store → StoreLaws table store
  no_laws store e = absurd (ground arith)

  inactive :
      (ctx : Context) (request : CreateGeneratedLinkRequest) → active_store c lib ctx request ≡ none
  unfolding active_store
  inactive ctx request = ground arith

  -- Without an idempotency store, a create request that succeeds makes a link that redirects: in the
  -- state that the request leaves, a visit by the link's code is sent to the link's destination, at
  -- every clock reading but the zero time that comes before the link's expiration.
  pub created_redirects :
      (ctx : Context) (request : CreateGeneratedLinkRequest) (s s' : S) (l : Link)
      → create_generated_link c lib ctx request s ≡ (ok l, s')
      → is_zero (reading c.repository c.clock finds l.code s') ≡ false
      → Before l.expires_at (reading c.repository c.clock finds l.code s')
      → (redirect_link (asking c.repository) c.clock none (record { code = l.code }) s').0
        ≡ ok (record { destination = l.destination.value })
  created_redirects ctx request s s' l h there early =
      let answer = ap (λ (o : Result Link × S). o.0) h in
      let left = ap (λ (o : Result Link × S). o.1) h in
      elim (create_ok c lib laws clock_laws generator_laws no_laws ctx request s l answer) [
        | inl ((store, stored, hit), same) ↦
            absurd (let gone = inactive ctx request in ground arith)
        | inr (d, parsed, (code, at, made), free, kept) ↦
            let now_held : table s' ≡ written l (table s) = ap table (sym left) ∙ kept in
            stored_redirects c.repository c.clock finds l s'
              ((λ i. now_held i l.code) ∙ ground (arith, text_eq_refl l.code))
              (new_link-IsValid code d request.owner_id at request.expires_at made)
              (new_link-active code d request.owner_id at request.expires_at l made) there early
      ]
