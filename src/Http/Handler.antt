-- ===== src/Http/Handler.antt =====
-- internal/link/adapters/httpapi/handler.go: the creation of links and the redirects. Decoding of
-- JSON and net.SplitHostPort are parameters; durations that only feed the metrics are left out.
pub mod Answers
pub mod Visit
use url_shortner.Prelude.{
  ℕ, Bool, true, false, ◌&&◌, ◌||◌, Option, none, some, List, [], ◌∷◌, ◌++◌, ◌==◌, if◌then◌else◌,
}
use url_shortner.Text.{Text, codes, text_eq, is_empty, trim_space}
use url_shortner.Time.{Time}
use url_shortner.Errors.{Error, Result, ok, err, is, link_not_found, link_unavailable}
use url_shortner.Net.{UrlLib}
use url_shortner.Domain.Link.{Link}
use url_shortner.Ports.{Context, Clock, LinkResolver}
use url_shortner.Analytics.{RedirectEvent, RedirectEventRecorder, new_redirect_event}
use url_shortner.Application.Creation.{
  CreateGeneratedLink, CreateGeneratedLinkRequest, create_generated_link,
}
use url_shortner.Application.Redirect.{RedirectLinkResult, redirect_link}
use url_shortner.Http.{create_error_code, redirect_error_code, is_code_path}

-- createLinkHTTPRequest, as the decoder leaves it
pub record CreateBody : Type 0 where
  pub destination : Text
  pub owner_id : Text
  pub expires_at : Option Time

-- What the handler reads of a request; no body is one that does not decode.
pub record HttpRequest : Type 0 where
  pub method : Text
  pub path : Text
  pub body : Option CreateBody
  pub idempotency_key : Text
  pub user_agent : Text
  pub referer : Text
  pub forwarded_for : Text
  pub remote_addr : Text

pub data HttpResponse : Type 0 where
  -- http.Error or http.NotFound, with this code
  refused : ℕ → HttpResponse
  -- 201, with the code, the short URL and the destination
  created : Text → Text → Text → HttpResponse
  -- 302, to this location
  found : Text → HttpResponse

pub record MetricsRecorder (S : Type 0) : Type 0 where
  pub record_redirect : Text → S → S
  pub record_analytics : Text → S → S

-- Handler, with the options applied; what is not there is the nil interface.
pub record Handler (S : Type 0) : Type 0 where
  pub create_link : CreateGeneratedLink S
  pub resolver : LinkResolver S
  pub redirect_clock : Clock S
  pub base_url : Text
  pub analytics : Option (RedirectEventRecorder S)
  pub clock : Option (Clock S)
  pub metrics : Option (MetricsRecorder S)

abbrev pub HandlerOption : Type 0 → Type 0
HandlerOption S = Handler S → Handler S

module _ {S : Type 0} where
  unfoldable pub with_analytics : RedirectEventRecorder S → Clock S → HandlerOption S
  with_analytics recorder clock h = record h { analytics = some recorder; clock = some clock }

  unfoldable pub with_metrics : MetricsRecorder S → HandlerOption S
  with_metrics recorder h = record h { metrics = some recorder }

  -- `for _, option := range options { option(&handler) }`
  abbrev apply_options : List (HandlerOption S) → HandlerOption S
  apply_options [] h = h
  apply_options (option ∷ options) h = apply_options options (option h)

  -- NewHandler; the use case for redirects is its resolver and its clock.
  unfoldable pub new_handler :
      CreateGeneratedLink S → LinkResolver S → Clock S → Text → List (HandlerOption S) → Handler S
  new_handler create_link resolver redirect_clock base_url options = apply_options options (record {
    create_link = create_link;
    resolver = resolver;
    redirect_clock = redirect_clock;
    base_url = base_url;
    analytics = none;
    clock = none;
    metrics = none;
  })

-- strings.TrimPrefix(path, "/")
unfoldable pub path_code : Text → Text
path_code [] = []
path_code (c ∷ s) = if c == b'/' then s else c ∷ s

-- strings.Split(s, ",")[0]
unfoldable pub before_comma : Text → Text
before_comma [] = []
before_comma (c ∷ s) = if c == b',' then [] else c ∷ before_comma s

-- clientIPFromRequest; the parameter gives the host of an address that splits.
abbrev or_address : Option Text → Text → Text
or_address none address = address
or_address (some host) address = host

unfoldable pub client_ip : (Text → Option Text) → HttpRequest → Text
unfolding before_comma
client_ip split_host_port r =
    if is_empty r.forwarded_for
    then or_address (split_host_port r.remote_addr) r.remote_addr
    else trim_space (before_comma r.forwarded_for)

unfoldable pub created_response : Text → Result Link → HttpResponse
created_response base_url (err e) = refused (create_error_code e)
created_response base_url (ok l) = created l.code (base_url ++ (b'/' ∷ l.code)) l.destination.value

-- The response of a redirect, and its name in the metrics. http.Redirect escapes what is not ASCII in
-- the Location header; the destination stands here as it is.
unfoldable pub redirect_response : Result RedirectLinkResult → HttpResponse
redirect_response (err e) = refused (redirect_error_code e)
redirect_response (ok result) = found result.destination

unfoldable pub redirect_result_name : Result RedirectLinkResult → Text
redirect_result_name (err e) =
    if is e link_not_found || is e link_unavailable then codes "not_found" else codes "error"
redirect_result_name (ok result) = codes "success"

module _ {S : Type 0} (h : Handler S) (lib : UrlLib) (split_host_port : Text → Option Text)
    (ctx : Context) where
  -- recordRedirectMetric and recordAnalyticsMetric
  unfoldable pub redirect_metric : Text → S → S
  redirect_metric result s = elim h.metrics [ none ↦ s | some m ↦ m.record_redirect result s ]

  unfoldable pub analytics_metric : Text → S → S
  analytics_metric result s = elim h.metrics [ none ↦ s | some m ↦ m.record_analytics result s ]

  abbrev outcome_name : Result (Unit {0}) → Text
  outcome_name (ok done) = codes "success"
  outcome_name (err e) = codes "error"

  unfoldable pub send_event : RedirectEventRecorder S → Result RedirectEvent → S → S
  unfolding analytics_metric
  send_event recorder (err e) s = analytics_metric (codes "error") s
  send_event recorder (ok event) s =
      let (answer, s') = recorder.record_event ctx event s in
      analytics_metric (outcome_name answer) s'

  -- recordRedirectEvent
  unfoldable pub event_recorded :
      Option (RedirectEventRecorder S) → Option (Clock S) → HttpRequest → Text → S → S
  unfolding send_event
  event_recorded (some recorder) (some clock) r code s =
      let (now, s') = clock.now s in
      send_event recorder
        (new_redirect_event code now r.user_agent r.referer (client_ip split_host_port r)) s'
  event_recorded (some recorder) none r code s = analytics_metric (codes "skipped") s
  event_recorded none clock r code s = analytics_metric (codes "skipped") s

  -- handleCreateLink, from the decoded body on
  unfoldable pub create_from : Text → Option CreateBody → S → HttpResponse × S
  create_from idempotency_key none s = (refused 400, s)
  create_from idempotency_key (some body) s =
      let (answer, s') =
        create_generated_link h.create_link lib ctx
          (record {
            destination = body.destination;
            owner_id = body.owner_id;
            expires_at = body.expires_at;
            idempotency_key = idempotency_key;
          })
          s in
      (created_response h.base_url answer, s')

  unfoldable pub handle_create_link : HttpRequest → S → HttpResponse × S
  unfolding create_from
  handle_create_link r s = create_from r.idempotency_key r.body s

  -- What follows a redirect that succeeded; one that failed records no event.
  unfoldable pub after_redirect : HttpRequest → Text → Result RedirectLinkResult → S → S
  unfolding event_recorded
  after_redirect r code (err e) s = s
  after_redirect r code (ok result) s = event_recorded h.analytics h.clock r code s

  unfoldable pub handle_redirect : HttpRequest → S → HttpResponse × S
  unfolding after_redirect redirect_metric
  handle_redirect r s =
      let code = path_code r.path in
      let (answer, s') = redirect_link h.resolver h.redirect_clock ctx (record { code = code }) s in
      (
        redirect_response answer,
        redirect_metric (redirect_result_name answer) (after_redirect r code answer s'),
      )

  unfoldable pub serve_http : HttpRequest → S → HttpResponse × S
  unfolding handle_create_link handle_redirect
  serve_http r s =
      if text_eq r.method (codes "POST") && text_eq r.path (codes "/v1/links")
      then handle_create_link r s
      else if text_eq r.method (codes "GET") && is_code_path r.path
      then handle_redirect r s
      else (refused 404, s)
