-- ===== src/Http/Handler/Visit.antt =====
-- From a 201 to the 302 of a visit by the short URL.
use mathlib.Core.Path.{subst, ap}
use url_shortner.Prelude.{◌≡◌, ◌∙◌, refl, true, false, Option, none, some, inl, inr, ◌∷◌, arith}
use url_shortner.Text.{Text, codes, text_eq, text_eq_refl, is_empty}
use url_shortner.Time.{Time, is_zero}
use url_shortner.Errors.{ok}
use url_shortner.Net.{UrlLib}
use url_shortner.Domain.Destination.{DestinationUrl}
use url_shortner.Domain.Link.{Link, new_link}
use url_shortner.Domain.Link.Validity.{new_link-IsValid}
use url_shortner.Domain.Mapping.Agreement.{Before}
use url_shortner.Ports.{Context, IdempotencyStore}
use url_shortner.Ports.Laws.{
  Table, RepositoryLaws, FindsStored, ClockLaws, GeneratorLaws, StoreLaws,
}
use url_shortner.Application.Creation.{active_store}
use url_shortner.Application.Redirect.{redirect_link}
use url_shortner.Application.Redirect.Journey.{asking, reading, stored_redirects, new_link-active}
use url_shortner.Http.{is_code_path}
use url_shortner.Http.Handler.{
  CreateBody, HttpRequest, created, found, Handler, path_code, redirect_response, handle_redirect,
  serve_http,
}
use url_shortner.Http.Handler.Answers.{asked, Creates, Behind201, serve_http-Creates}

module _ {S : Type 0} (h : Handler S) (lib : UrlLib) (split_host_port : Text → Option Text) where
  visit_found :
      (visit : HttpRequest) (code location : Text) (s : S)
      → visit.method ≡ codes "GET"
      → visit.path ≡ b'/' ∷ code
      → is_code_path visit.path ≡ true
      → (redirect_link h.resolver h.redirect_clock none (record { code = code }) s).0
        ≡ ok (record { destination = location })
      → (serve_http h lib split_host_port none visit s).0 ≡ found location
  unfolding serve_http handle_redirect redirect_response path_code text_eq
  visit_found visit code location s get at named answered = rw (get, named, at, answered) refl

  new_link_expires :
      (code : Text) (d : DestinationUrl) (owner : Text) (at : Time) (e : Option Time) (l : Link)
      → new_link code d owner at e ≡ ok l
      → l.expires_at ≡ e
  unfolding new_link
  new_link_expires code d owner at e l made = ground arith

  module _ {table : S → Table} (laws : RepositoryLaws h.create_link.repository table)
      (finds : FindsStored h.create_link.repository table)
      (clock_laws : ClockLaws table h.create_link.clock)
      (generator_laws : GeneratorLaws table h.create_link.generator)
      (store_laws : (store : IdempotencyStore S)
        → h.create_link.idempotency_store ≡ some store
        → StoreLaws table store)
      (same_clock : h.redirect_clock ≡ h.create_link.clock)
      (same_links : h.resolver ≡ asking h.create_link.repository) where
    -- The time at which a visit reads the clock.
    abbrev pub visited_at : Text → S → Time
    visited_at = reading h.create_link.repository h.create_link.clock finds

    found_link :
        (l : Link) (s : S)
        → (redirect_link
            (asking h.create_link.repository)
            h.create_link.clock
            none
            (record { code = l.code })
            s).0
          ≡ ok (record { destination = l.destination.value })
        → (redirect_link h.resolver h.redirect_clock none (record { code = l.code }) s).0
          ≡ ok (record { destination = l.destination.value })
    found_link l s answered = rw (same_clock, same_links) answered

    Behind201-found :
        (ctx : Context) (r : HttpRequest) (body : CreateBody) (l : Link) (s s' : S)
        → is_empty r.idempotency_key ≡ true
        → Behind201 h lib split_host_port ctx laws clock_laws generator_laws store_laws r body s s'
            l
        → is_zero (visited_at l.code s') ≡ false
        → Before body.expires_at (visited_at l.code s')
        → (redirect_link h.resolver h.redirect_clock none (record { code = l.code }) s').0
          ≡ ok (record { destination = l.destination.value })
    unfolding active_store
    Behind201-found ctx r body l s s' keyless (inl ((store, stored, hit), same)) there early =
        absurd (ground arith)
    Behind201-found ctx r body l s s' keyless (inr (d, parsed, (code, at, made), free, kept)) there
          early =
        let expires = new_link_expires code d body.owner_id at body.expires_at l made in
        found_link l s' (
          stored_redirects h.create_link.repository h.create_link.clock finds l s'
            ((λ i. kept i l.code) ∙ ground (arith, text_eq_refl l.code))
            (new_link-IsValid code d body.owner_id at body.expires_at made)
            (new_link-active code d body.owner_id at body.expires_at l made) there
            (rw expires early))

    -- A 201 to a request without an idempotency key shows a code that redirects: a live GET of that
    -- code, in the state that the creation leaves, is answered by a 302 to the destination that the
    -- 201 shows, if the handler resolves codes in the repository in which it creates links, the code
    -- can stand in a path, and the clock reading is not the zero time and comes before the
    -- expiration that was asked for.
    pub serve_http_visit :
        (ctx : Context) (r visit : HttpRequest) (body : CreateBody) (s s' : S)
        (code url destination : Text)
        → serve_http h lib split_host_port ctx r s ≡ (created code url destination, s')
        → r.body ≡ some body
        → is_empty r.idempotency_key ≡ true
        → visit.method ≡ codes "GET"
        → visit.path ≡ b'/' ∷ code
        → is_code_path visit.path ≡ true
        → is_zero (visited_at code s') ≡ false
        → Before body.expires_at (visited_at code s')
        → (serve_http h lib split_host_port none visit s').0 ≡ found destination
    serve_http_visit ctx r visit body s s' code url destination answer asked keyless get at named
          there early =
        let stands =
          subst (Creates h lib split_host_port ctx laws clock_laws generator_laws store_laws r s)
            answer
            (serve_http-Creates h lib split_host_port ctx laws clock_laws generator_laws store_laws
              r s) in
        let (body', asked', l, code_of, url_of, shown, behind) = stands in
        let same : body' ≡ body = ground (arith, asked, asked') in
        rw shown (
          visit_found visit l.code l.destination.value s' get
            (at ∙ ap (λ (c : Text). b'/' ∷ c) code_of) named
            (Behind201-found ctx r body l s s' keyless
              (subst
                (λ (b : CreateBody).
                  Behind201 h lib split_host_port ctx laws clock_laws generator_laws store_laws r b
                    s s' l)
                same behind)
              (subst (λ (c : Text). is_zero (visited_at c s') ≡ false) code_of there)
              (subst (λ (c : Text). Before body.expires_at (visited_at c s')) code_of early)))
