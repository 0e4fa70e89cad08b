-- ===== src/Server/Process/Outcome.antt =====
-- When run returns nil.
use url_shortner.Prelude.{◌∙◌, ◌≢◌, ap, Option, none, some, ◌≡◌, ◌⊎◌, inl, inr, refl, arith, ◌↔◌}
use url_shortner.Io.{deferring, wrapping, lift, continue}
use url_shortner.Io.Inversion.{bind-ok, wrap-ok}
use url_shortner.Errors.{Error, Result, ok, wrap}
use url_shortner.Config.{Config, load}
use url_shortner.Server.{StorageDependencies, ResolverDependencies}
use url_shortner.Server.Process.{
  Wake, served, signalled, HttpServer, Outside, reported, forced, after_shutdown, woken, serve,
  storage_of, resolver_of, server_of, with_storage, with_signals, with_config, run,
}

reported_ok : (failed : Option Error) → (reported failed ≡ ok tt) ↔ (failed ≡ none)
reported_ok none = (λ h. refl, λ h. refl)
reported_ok (some e) = (λ h. absurd (ground arith), λ h. absurd (ground arith))

not_forced : (e : Error) (failed : Option Error) → forced e failed ≢ ok tt
not_forced e none h = ground arith
not_forced e (some e') h = ground arith

module _ {S : Type 0} where
  -- The server ended by itself without an error, or it shut down in time after a signal and its
  -- goroutine had no error either.
  abbrev pub Graceful : HttpServer S → Config → S → Type 0
  Graceful server cfg s =
      let s1 = (server.wait s).1 in
      let s2 = (server.shutdown cfg.shutdown_timeout s1).1 in
      ((server.wait s).0 ≡ served none)
      ⊎ (((server.wait s).0 ≡ signalled)
          × ((server.shutdown cfg.shutdown_timeout s1).0 ≡ none)
          × ((server.server_error s2).0 ≡ none))

  after_shutdown_ok :
      (server : HttpServer S) (failed : Option Error) (s : S)
      → ((after_shutdown server failed s).0 ≡ ok tt)
        ↔ ((failed ≡ none) × ((server.server_error s).0 ≡ none))
  unfolding after_shutdown
  after_shutdown_ok server none s =
      let (onward, back) = reported_ok (server.server_error s).0 in
      (λ h. (refl, onward h), λ (_, h). back h)
  after_shutdown_ok server (some e) s = (
    λ h. absurd (not_forced e (server.close s).0 h),
    λ (h, _). absurd (let clash : some e ≡ none = h in ground arith),
  )

  woken_ok :
      (server : HttpServer S) (cfg : Config) (wake : Wake) (s : S)
      → ((woken server cfg wake s).0 ≡ ok tt) ↔ (
          (wake ≡ served none)
          ⊎ ((wake ≡ signalled)
              × ((server.shutdown cfg.shutdown_timeout s).0 ≡ none)
              × ((server.server_error (server.shutdown cfg.shutdown_timeout s).1).0 ≡ none)))
  unfolding woken
  woken_ok server cfg (served failed) s =
      let (onward, back) = reported_ok failed in
      (
        λ h. inl (ap served (onward h)),
        λ h. elim h [
          | inl e ↦ back (let same : served failed ≡ served none = e in cc)
          | inr (e, _, _) ↦ absurd (let clash : served failed ≡ signalled = e in ground arith)
        ],
      )
  woken_ok server cfg signalled s =
      let (failed, s') = server.shutdown cfg.shutdown_timeout s in
      let (onward, back) = after_shutdown_ok server failed s' in
      (
        λ h. (let (a, b) = onward h in inr (refl, a, b)),
        λ h. elim h [
          | inl e ↦ absurd (let clash : signalled ≡ served none = e in ground arith)
          | inr (_, a, b) ↦ back (a, b)
        ],
      )

  module _ (o : Outside S) where
    -- The configuration loads, every part is built, and the server ends gracefully.
    pub record Succeeds (s : S) : Type 0 where
      pub cfg : Config
      pub storage : StorageDependencies S
      pub resolver : ResolverDependencies S
      pub loaded : load o.env o.lib o.parse_duration ≡ ok cfg
      pub stored : (storage_of o (o.notify s).0 cfg (o.notify s).1).0 ≡ ok storage
      pub built :
          (resolver_of o storage cfg (storage_of o (o.notify s).0 cfg (o.notify s).1).1).0
          ≡ ok resolver
      pub ended :
          Graceful
            (server_of o cfg storage resolver)
            cfg
            (resolver_of o storage cfg (storage_of o (o.notify s).0 cfg (o.notify s).1).1).1

    -- run returns nil exactly when the configuration loads, the storage and the resolver are
    -- built, and the server ends by itself without an error or, after a signal, shuts down without
    -- one and had none of its own.
    pub run_ok_iff : (s : S) → ((run o s).0 ≡ ok tt) ↔ Succeeds s
    unfolding run with_config with_signals with_storage serve
    run_ok_iff s = (
      λ h.
          let (cfg, loaded, h1, _) =
            bind-ok (lift {S = S} (wrap (load o.env o.lib o.parse_duration))) (with_config o) s h in
          let (ctx, s1) = o.notify s in
          let (storage, stored, h2, _) =
            bind-ok (wrapping (storage_of o ctx cfg))
              (λ d. deferring d.cleanup (with_storage o cfg d)) s1 h1 in
          let s2 = (storage_of o ctx cfg s1).1 in
          let (resolver, built, h3, _) =
            bind-ok (wrapping (resolver_of o storage cfg))
              (λ d. deferring d.cleanup (serve (server_of o cfg storage d) cfg)) s2 h2 in
          let s3 = (resolver_of o storage cfg s2).1 in
          let server = server_of o cfg storage resolver in
          record {
            cfg = cfg;
            storage = storage;
            resolver = resolver;
            loaded = wrap-ok (load o.env o.lib o.parse_duration) loaded;
            stored = wrap-ok (storage_of o ctx cfg s1).0 stored;
            built = wrap-ok (resolver_of o storage cfg s2).0 built;
            ended = (woken_ok server cfg (server.wait s3).0 (server.wait s3).1).0 h3;
          },
      λ h.
          let (ctx, s1) = o.notify s in
          let s2 = (storage_of o ctx h.cfg s1).1 in
          let s3 = (resolver_of o h.storage h.cfg s2).1 in
          let server = server_of o h.cfg h.storage h.resolver in
          ap (λ (r : Result Config). (continue (wrap r) (with_config o) s).0) h.loaded
          ∙ ap
              (λ (r : Result (StorageDependencies S)).
                (continue (wrap r) (λ d. deferring d.cleanup (with_storage o h.cfg d)) s2).0)
              h.stored
          ∙ ap
              (λ (r : Result (ResolverDependencies S)).
                (continue (wrap r)
                  (λ d. deferring d.cleanup (serve (server_of o h.cfg h.storage d) h.cfg)) s3).0)
              h.built
          ∙ (woken_ok server h.cfg (server.wait s3).0 (server.wait s3).1).1 h.ended,
    )
