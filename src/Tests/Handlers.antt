-- ===== src/Tests/Handlers.antt =====
-- Examples on the HTTP handlers for creation and redirects.
use url_shortner.Prelude.{◌≡◌, refl, none, some, [], arith}
use url_shortner.Prelude.Maps
use url_shortner.Text.{
  codes, trim_space, trim_left, trim_right, is_space, is_empty, text_eq, to_lower, to_lower_rune,
}
use url_shortner.Time.{is_zero, zero_time}
use url_shortner.Errors.{is}
use url_shortner.Domain.Destination.{new_destination_url}
use url_shortner.Domain.Destination
use url_shortner.Domain.Link.{new_link, expires_too_early}
use url_shortner.Memory.Repository.{find_by_code}
use url_shortner.Memory.Repository
use url_shortner.Memory.Repository.Refinement.{FindsStored-repository}
use url_shortner.Ports.{IdempotencyStore}
use url_shortner.Ports.Laws.{FindsStored, StoreLaws}
use url_shortner.Application.Cache.{repository_resolve}
use url_shortner.Application.Creation.{
  replay_outcome, or_fresh, create_fresh, active_store, creation_time, inserted, replayed, round,
  rounds, saved, CreateGeneratedLink, create_generated_link,
}
use url_shortner.Application.Redirect.Journey.{asking}
use url_shortner.Http.{is_code_path}
use url_shortner.Http.Handler.{
  HttpRequest, Handler, created, found, created_response, create_from, handle_create_link,
  serve_http,
}
use url_shortner.Http.Handler.Visit.{serve_http_visit}
use url_shortner.Http.Handler.Answers.{Redirects, Creates, serve_http-Redirects, serve_http-Creates}
use url_shortner.Tests.World.{
  site, lib, World, world, links, table, links_laws, clock, clock_laws, generator, generator_laws,
}

finds : FindsStored links table
finds = record { find_stored = λ code w. FindsStored-repository.find_stored code w.links }

abbrev service : CreateGeneratedLink World
service = record {
  repository = links;
  generator = generator;
  clock = clock;
  idempotency_store = none;
}

abbrev handler : Handler World
handler = record {
  create_link = service;
  resolver = asking links;
  redirect_clock = clock;
  base_url = codes "http://t";
  analytics = none;
  clock = none;
  metrics = none;
}

abbrev visit : HttpRequest
visit = record {
  method = codes "GET";
  path = codes "/0";
  body = none;
  idempotency_key = [];
  user_agent = [];
  referer = [];
  forwarded_for = [];
  remote_addr = [];
}

abbrev creation : HttpRequest
creation = record visit {
  method = codes "POST";
  path = codes "/v1/links";
  body = some (record { destination = site; owner_id = codes "ann"; expires_at = none });
}

serve_http-Redirects_example :
    Redirects handler lib
      (λ t. none)
      none
      visit
      world
      (serve_http handler lib (λ t. none) none visit world).0
serve_http-Redirects_example = serve_http-Redirects handler lib (λ t. none) none visit world

no_store :
    (other : IdempotencyStore World)
    → service.idempotency_store ≡ some other
    → StoreLaws table other
no_store other e = absurd (ground arith)

serve_http-Creates_example :
    Creates handler lib
      (λ t. none)
      none
      links_laws
      clock_laws
      generator_laws
      no_store
      creation
      world
      (serve_http handler lib (λ t. none) none creation world)
serve_http-Creates_example =
    serve_http-Creates handler lib (λ t. none) none links_laws clock_laws generator_laws no_store
      creation world

-- The code 0 is taken, so the new link has the code 1.
abbrev second_visit : HttpRequest
second_visit = record visit { path = codes "/1" }

abbrev after_creation : World
after_creation = (serve_http handler lib (λ t. none) none creation world).1

creation_answer :
    serve_http handler lib (λ t. none) none creation world
    ≡ (created (codes "1") (codes "http://t/1") site, after_creation)
unfolding serve_http handle_create_link create_from created_response create_generated_link is_empty
    replay_outcome or_fresh create_fresh new_destination_url trim_space trim_right trim_left
    is_space text_eq to_lower to_lower_rune new_link Destination.is_zero active_store creation_time
    inserted replayed round rounds saved expires_too_early is_zero zero_time Repository.insert is
    repository_resolve find_by_code Maps.lookup Maps.insert
creation_answer = refl

serve_http_visit_example :
    (serve_http handler lib (λ t. none) none second_visit after_creation).0 ≡ found site
unfolding serve_http handle_create_link create_from created_response is_code_path
    create_generated_link is_empty replay_outcome or_fresh create_fresh new_destination_url
    trim_space trim_right trim_left is_space text_eq to_lower to_lower_rune new_link
    Destination.is_zero active_store creation_time inserted replayed round rounds saved
    expires_too_early is_zero zero_time Repository.insert is repository_resolve find_by_code
    Maps.lookup Maps.insert
serve_http_visit_example =
    serve_http_visit handler lib (λ t. none) links_laws finds clock_laws generator_laws no_store
      refl refl none creation second_visit
      (record { destination = site; owner_id = codes "ann"; expires_at = none }) world
      after_creation (codes "1") (codes "http://t/1") site creation_answer refl refl refl refl refl
      refl tt
