-- ===== src/Server/Process.antt =====
-- cmd/linkd/main.go: run, from the configuration to the end of the process. The server of net/http,
-- the signals of the operating system and what the builders of the server take are parameters.
pub mod Outcome
pub mod Held
pub mod Release
use url_shortner.Prelude.{Option, none, some, List, [], ◌∷◌}
use url_shortner.Text.{Text, codes}
use url_shortner.Time.{Duration}
use url_shortner.Io.{deferring, wrapping, Io, pure, raise, lift, ◌>>=◌}
use url_shortner.Net.{UrlLib}
use url_shortner.Ports.{Context, Clock, CodeGenerator}
use url_shortner.Memory.Idempotency.{SameLink}
use url_shortner.Errors.{Error, Result, ok, err, wrapped, joined, wrap}
use url_shortner.Application.Cache.{RedirectCacheMetrics, WithTimeout}
use url_shortner.Http.Handler.{MetricsRecorder}
use url_shortner.Config.{Env, Config, load}
use url_shortner.Server.{
  Memory, PostgresPool, RedisClient, StorageDependencies, ResolverDependencies, Services,
  build_storage, build_link_resolver, build_services,
}

-- What `select` receives first: the end of ListenAndServe, where none is nil or ErrServerClosed, or
-- the end of the context, after a signal.
pub data Wake : Type 0 where
  served : Option Error → Wake
  signalled : Wake

-- The server of net/http that listens in a goroutine, and the channel of its error.
pub record HttpServer (S : Type 0) : Type 0 where
  pub wait : S → Wake × S
  -- with a context that ends after this time
  pub shutdown : Duration → S → Option Error × S
  pub close : S → Option Error × S
  pub server_error : S → Option Error × S

-- A handler that run registers.
pub data Endpoint : Type 0 where
  liveness readiness diagnostics metrics_page link_get link_patch links : Endpoint

-- The patterns that run registers, in its order.
abbrev pub routes : List (Text × Endpoint)
routes =
    (codes "GET /healthz", liveness)
    ∷ (codes "GET /readyz", readiness)
    ∷ (codes "GET /internal/diagnostics", diagnostics)
    ∷ (codes "GET /internal/metrics", metrics_page)
    ∷ (codes "GET /v1/links/{code}", link_get)
    ∷ (codes "PATCH /v1/links/{code}", link_patch)
    ∷ (codes "/", links)
    ∷ []

-- What run reaches outside the repository.
pub record Outside (S : Type 0) : Type 0 where
  pub env : Env
  pub lib : UrlLib
  pub parse_duration : Text → Option Duration
  -- signal.NotifyContext, with its stop
  pub notify : S → Context × S
  pub stop : S → S
  pub open_pool : Context → Text → Io S (PostgresPool S)
  pub same : SameLink
  pub memory : Memory S
  pub with_timeout : WithTimeout
  -- ParseURL and NewClient of Redis
  pub parse_url : Text → Result (RedisClient S)
  pub generator : CodeGenerator S
  pub clock : Clock S
  pub cache_metrics : RedirectCacheMetrics S
  pub metrics : MetricsRecorder S
  -- http.NewServeMux, &http.Server{...} and the goroutine that calls ListenAndServe
  pub listen : Config → List (Text × Endpoint) → Services S → HttpServer S

-- `if err != nil { return fmt.Errorf("...: %w", err) }; return nil`
abbrev pub reported : Option Error → Result (Unit {0})
reported none = ok tt
reported (some e) = err (wrapped e)

-- The error of a shutdown that failed, after the forced close.
abbrev pub forced : Error → Option Error → Result (Unit {0})
forced e none = err (wrapped e)
forced e (some e') = err (joined (wrapped e) (wrapped e'))

module _ {S : Type 0} where
  unfoldable pub after_shutdown : HttpServer S → Option Error → Io S (Unit {0})
  after_shutdown server (some e) s = let (failed, s') = server.close s in (forced e failed, s')
  after_shutdown server none s = let (failed, s') = server.server_error s in (reported failed, s')

  unfoldable pub woken : HttpServer S → Config → Wake → Io S (Unit {0})
  unfolding after_shutdown
  woken server cfg (served failed) s = (reported failed, s)
  woken server cfg signalled s =
      let (failed, s') = server.shutdown cfg.shutdown_timeout s in after_shutdown server failed s'

  -- From the select to the end.
  unfoldable pub serve : HttpServer S → Config → Io S (Unit {0})
  unfolding woken
  serve server cfg s = let (wake, s') = server.wait s in woken server cfg wake s'

  module _ (o : Outside S) where
    abbrev pub storage_of : Context → Config → Io S (StorageDependencies S)
    storage_of = build_storage o.lib o.open_pool o.same o.memory

    abbrev pub resolver_of : StorageDependencies S → Config → Io S (ResolverDependencies S)
    resolver_of storage =
        build_link_resolver o.lib o.with_timeout storage.repository o.clock o.cache_metrics
          o.parse_url

    abbrev pub server_of : Config → StorageDependencies S → ResolverDependencies S → HttpServer S
    server_of cfg storage resolver =
        o.listen cfg routes (build_services cfg storage resolver o.generator o.clock o.metrics)

    -- run with its storage open
    unfoldable pub with_storage : Config → StorageDependencies S → Io S (Unit {0})
    unfolding serve
    with_storage cfg storage = do
      resolver ← wrapping (resolver_of storage cfg)
      deferring resolver.cleanup (serve (server_of cfg storage resolver) cfg)

    -- run with its signals on
    unfoldable pub with_signals : Context → Config → Io S (Unit {0})
    unfolding with_storage
    with_signals ctx cfg = do
      storage ← wrapping (storage_of ctx cfg)
      deferring storage.cleanup (with_storage cfg storage)

    -- run with its configuration
    unfoldable pub with_config : Config → Io S (Unit {0})
    unfolding with_signals
    with_config cfg s = let (ctx, s') = o.notify s in deferring o.stop (with_signals ctx cfg) s'

    unfoldable pub run : Io S (Unit {0})
    unfolding with_config
    run = lift (wrap (load o.env o.lib o.parse_duration)) >>= with_config
