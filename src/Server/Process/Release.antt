-- ===== src/Server/Process/Release.antt =====
-- run gives back what it takes: the signals and the connection pool.
use url_shortner.Prelude.{ℕ, ◌≡◌, ◌∙◌, refl, arith, Option, none, some}
use url_shortner.Io.{deferring, continue}
use url_shortner.Errors.{Error, Result, ok, err, wrap}
use url_shortner.Config.{Config, load}
use url_shortner.Server.{StorageDependencies, ResolverDependencies, Services, build_services}
use url_shortner.Server.Process.{
  routes, Wake, served, signalled, Outside, after_shutdown, woken, serve, storage_of, resolver_of,
  server_of, with_storage, with_signals, with_config, run,
}
use url_shortner.Server.Process.Held.{
  HoldsLaws, StorageHeld, ResolverHeld, storage_held, resolver_held,
}

module _ {S : Type 0} (o : Outside S) (held : S → ℕ) (laws : HoldsLaws o held) where
  held-after_shutdown :
      (cfg : Config) (d : Services S) (failed : Option Error) (s : S)
      → held (after_shutdown (o.listen cfg routes d) failed s).1 ≡ held s
  unfolding after_shutdown
  held-after_shutdown cfg d (some e) s = laws.close_held cfg d s
  held-after_shutdown cfg d none s = laws.error_held cfg d s

  held-woken :
      (cfg : Config) (d : Services S) (wake : Wake) (s : S)
      → held (woken (o.listen cfg routes d) cfg wake s).1 ≡ held s
  unfolding woken
  held-woken cfg d (served failed) s = refl
  held-woken cfg d signalled s =
      let (failed, s') = (o.listen cfg routes d).shutdown cfg.shutdown_timeout s in
      held-after_shutdown cfg d failed s' ∙ laws.shutdown_held cfg d cfg.shutdown_timeout s

  held-serve :
      (cfg : Config) (d : Services S) (s : S)
      → held (serve (o.listen cfg routes d) cfg s).1 ≡ held s
  unfolding serve
  held-serve cfg d s =
      let (wake, s') = (o.listen cfg routes d).wait s in
      held-woken cfg d wake s' ∙ laws.wait_held cfg d s

  resolved_held :
      (cfg : Config) (storage : StorageDependencies S) (r : Result (ResolverDependencies S)) (s : S)
      → ResolverHeld o held laws r
      → held
          (continue (wrap r) (λ d. deferring d.cleanup (serve (server_of o cfg storage d) cfg)) s).1
        ≡ held s
  unfolding ResolverHeld
  resolved_held cfg storage (ok d) s h =
      let services = build_services cfg storage d o.generator o.clock o.metrics in
      h (serve (o.listen cfg routes services) cfg s).1 ∙ held-serve cfg services s
  resolved_held cfg storage (err e) s h = refl

  held-with_storage :
      (cfg : Config) (storage : StorageDependencies S) (s : S)
      → held (with_storage o cfg storage s).1 ≡ held s
  unfolding with_storage
  held-with_storage cfg storage s =
      let (clean, same) = resolver_held o held laws storage cfg s in
      let (r, s') = resolver_of o storage cfg s in resolved_held cfg storage r s' clean ∙ same

  stored_held :
      (cfg : Config) (r : Result (StorageDependencies S)) (before : ℕ) (s : S)
      → StorageHeld o held laws r before (held s)
      → held (continue (wrap r) (λ d. deferring d.cleanup (with_storage o cfg d)) s).1 ≡ before
  unfolding StorageHeld
  stored_held cfg (ok d) before s h = h (with_storage o cfg d s).1 (held-with_storage cfg d s)
  stored_held cfg (err e) before s h = h

  held-with_config : (cfg : Config) (s : S) → held (with_config o cfg s).1 ≡ held s
  unfolding with_config with_signals
  held-with_config cfg s =
      let (ctx, s') = o.notify s in
      let (r, s2) = storage_of o ctx cfg s' in
      let kept = stored_held cfg r (held s') s2 (storage_held o held laws ctx cfg s') in
      let noted = laws.notify_held s in
      let stopped = laws.stop_held (with_signals o ctx cfg s').1 in
      let back : held (with_signals o ctx cfg s').1 ≡ held s' = unfold with_signals in kept in
      stopped ∙ omega arith

  loaded_held : (r : Result Config) (s : S) → held (continue (wrap r) (with_config o) s).1 ≡ held s
  loaded_held (ok cfg) s = held-with_config cfg s
  loaded_held (err e) s = refl

  -- However run ends, whatever of its steps fails, it holds as much as before it: the signals are
  -- stopped, and a pool that was opened is closed, where a pool counts from its opening to its
  -- closing and nothing else changes the count.
  pub held-run : (s : S) → held (run o s).1 ≡ held s
  unfolding run
  held-run s = loaded_held (load o.env o.lib o.parse_duration) s
