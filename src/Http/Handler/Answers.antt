-- ===== src/Http/Handler/Answers.antt =====
-- What the answers of the handler stand for.
use mathlib.Core.Path.{subst}
use url_shortner.Prelude.{
  ◌≡◌, ◌⊎◌, ap, refl, true, ◌&&◌, Option, none, some, inl, inr, ◌∷◌, ◌++◌, arith, Bool-cases,
}
use url_shortner.Text.{Text, codes, text_eq}
use url_shortner.Errors.{Result, ok, err}
use url_shortner.Net.{UrlLib}
use url_shortner.Domain.Status.{active}
use url_shortner.Domain.Link.{Link}
use url_shortner.Domain.Mapping.{RedirectMapping}
use url_shortner.Domain.Mapping.Agreement.{Before}
use url_shortner.Ports.{Context, IdempotencyStore}
use url_shortner.Ports.Laws.{Table, RepositoryLaws, ClockLaws, GeneratorLaws, StoreLaws}
use url_shortner.Application.Creation.{CreateGeneratedLinkRequest, create_generated_link}
use url_shortner.Application.Creation.Replay.{Replayed, Created, create_ok}
use url_shortner.Application.Redirect.{RedirectLinkResult, redirect_link}
use url_shortner.Application.Redirect.Safety.{redirect_ok}
use url_shortner.Http.{is_code_path}
use url_shortner.Http.Handler.{
  CreateBody, HttpRequest, HttpResponse, refused, created, found, Handler, path_code,
  created_response, redirect_response, create_from, handle_create_link, handle_redirect, serve_http,
}

-- The request that a body and a header ask for.
abbrev pub asked : HttpRequest → CreateBody → CreateGeneratedLinkRequest
asked r body = record {
  destination = body.destination;
  owner_id = body.owner_id;
  expires_at = body.expires_at;
  idempotency_key = r.idempotency_key;
}

module _ {S : Type 0} (h : Handler S) (lib : UrlLib) (split_host_port : Text → Option Text)
    (ctx : Context) where
  -- The mapping behind a redirect: active and not expired at the clock reading.
  abbrev pub Behind : Text → Text → S → Type 0
  Behind code location s =
      (m : RedirectMapping) × ((h.resolver.resolve ctx code s).0 ≡ ok m)
      × (location ≡ m.destination.value)
      × (m.status ≡ active)
      × Before m.expires_at (h.redirect_clock.now (h.resolver.resolve ctx code s).1).0

  -- What a redirect answer stands for.
  abbrev pub Redirects : HttpRequest → S → HttpResponse → Type 0
  Redirects r s (refused n) = Unit
  Redirects r s (created a b c) = Unit
  Redirects r s (found location) =
      (text_eq r.method (codes "GET") ≡ true) × Behind (path_code r.path) location s

  response-Redirects :
      (r : HttpRequest) (s : S) (answer : Result RedirectLinkResult)
      → text_eq r.method (codes "GET") ≡ true
      → (redirect_link h.resolver h.redirect_clock ctx (record { code = path_code r.path }) s).0
        ≡ answer
      → Redirects r s (redirect_response answer)
  unfolding redirect_response
  response-Redirects r s (err e) get e' = tt
  response-Redirects r s (ok result) get e = (
    get,
    redirect_ok h.resolver h.redirect_clock ctx (record { code = path_code r.path }) s result e,
  )

  created-Redirects :
      (r : HttpRequest) (s : S) (answer : Result Link)
      → Redirects r s (created_response h.base_url answer)
  unfolding created_response
  created-Redirects r s (ok l) = tt
  created-Redirects r s (err e) = tt

  create-Redirects :
      (r : HttpRequest) (s : S) (body : Option CreateBody)
      → Redirects r s (create_from h lib split_host_port ctx r.idempotency_key body s).0
  unfolding create_from
  create-Redirects r s none = tt
  create-Redirects r s (some body) = created-Redirects r s _

  -- A 302 answers a GET alone, and its location is the destination of the mapping that the resolver
  -- gave for the code of the path, which was active and not yet expired at the clock reading.
  pub serve_http-Redirects :
      (r : HttpRequest) (s : S) → Redirects r s (serve_http h lib split_host_port ctx r s).0
  unfolding serve_http handle_redirect handle_create_link
  serve_http-Redirects r s =
      elim (Bool-cases (text_eq r.method (codes "POST") && text_eq r.path (codes "/v1/links"))) [
        | inl creates ↦ rw creates (create-Redirects r s r.body)
        | inr other ↦ elim (Bool-cases (text_eq r.method (codes "GET") && is_code_path r.path)) [
          | inl follows ↦ rw (other, follows) (response-Redirects r s _ (ground arith) refl)
          | inr neither ↦ rw (other, neither) tt
        ]
      ]

  -- Whether redirects are recorded, and what becomes of the records, never shows in an answer.
  pub serve_http_unrecorded :
      (r : HttpRequest) (s : S)
      → (serve_http h lib split_host_port ctx r s).0
        ≡ (serve_http
            (record h { analytics = none; clock = none; metrics = none })
            lib
            split_host_port
            ctx
            r
            s).0
  unfolding serve_http handle_redirect handle_create_link
  serve_http_unrecorded r s = ground arith

  module _ {table : S → Table} (laws : RepositoryLaws h.create_link.repository table)
      (clock_laws : ClockLaws table h.create_link.clock)
      (generator_laws : GeneratorLaws table h.create_link.generator)
      (store_laws : (store : IdempotencyStore S)
        → h.create_link.idempotency_store ≡ some store
        → StoreLaws table store) where
    -- The link behind a 201: on record for the owner and the key, or new on a free code.
    abbrev pub Behind201 : HttpRequest → CreateBody → S → S → Link → Type 0
    Behind201 r body s s' l =
        (Replayed h.create_link lib laws clock_laws generator_laws store_laws ctx (asked r body) s l
          × (table s' ≡ table s))
        ⊎ Created h.create_link lib laws clock_laws generator_laws store_laws ctx (asked r body) s
            s' l

    -- What a 201 stands for.
    abbrev pub Creates : HttpRequest → S → HttpResponse × S → Type 0
    Creates r s (refused n, s') = Unit
    Creates r s (found location, s') = Unit
    Creates r s (created code url destination, s') =
        (body : CreateBody) × (r.body ≡ some body)
        × (l : Link) × (code ≡ l.code)
        × (url ≡ h.base_url ++ (b'/' ∷ l.code))
        × (destination ≡ l.destination.value)
        × Behind201 r body s s' l

    answer-Creates :
        (r : HttpRequest) (body : CreateBody) (s s' : S) (answer : Result Link)
        → r.body ≡ some body
        → create_generated_link h.create_link lib ctx (asked r body) s ≡ (answer, s')
        → Creates r s (created_response h.base_url answer, s')
    unfolding created_response
    answer-Creates r body s s' (err e) there made = tt
    answer-Creates r body s s' (ok l) there made =
        let run = create_generated_link h.create_link lib ctx (asked r body) s in
        let outcome =
          create_ok h.create_link lib laws clock_laws generator_laws store_laws ctx (asked r body) s
            l (ap (λ (o : Result Link × S). o.0) made) in
        (
          body,
          there,
          l,
          refl,
          refl,
          refl,
          subst (λ (t : S). Behind201 r body s t l) (ap (λ (o : Result Link × S). o.1) made)
              outcome,
        )

    create_from-Creates :
        (r : HttpRequest) (s : S) (body : Option CreateBody)
        → r.body ≡ body
        → Creates r s (create_from h lib split_host_port ctx r.idempotency_key body s)
    unfolding create_from
    create_from-Creates r s none there = tt
    create_from-Creates r s (some body) there =
        let run = create_generated_link h.create_link lib ctx (asked r body) s in
        answer-Creates r body s run.1 run.0 there refl

    redirect-Creates :
        (r : HttpRequest) (s s' : S) (answer : Result RedirectLinkResult)
        → Creates r s (redirect_response answer, s')
    unfolding redirect_response
    redirect-Creates r s s' (ok result) = tt
    redirect-Creates r s s' (err e) = tt

    -- A 201 shows the code, the short URL and the destination of one link: the link on record for
    -- the owner and the idempotency key, with no link changed, or a new link on a code that no link
    -- had, which is all that the table gains.
    pub serve_http-Creates :
        (r : HttpRequest) (s : S) → Creates r s (serve_http h lib split_host_port ctx r s)
    unfolding serve_http handle_redirect handle_create_link
    serve_http-Creates r s =
        elim (Bool-cases (text_eq r.method (codes "POST") && text_eq r.path (codes "/v1/links"))) [
          | inl creates ↦ rw creates (create_from-Creates r s r.body refl)
          | inr other ↦ elim (Bool-cases (text_eq r.method (codes "GET") && is_code_path r.path)) [
            | inl follows ↦ rw (other, follows) (redirect-Creates r s _ _)
            | inr neither ↦ rw (other, neither) tt
          ]
        ]
