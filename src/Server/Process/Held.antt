-- ===== src/Server/Process/Held.antt =====
-- What run takes while it builds the server: the signals and the connection pool.
use url_shortner.Prelude.{Bool-cases, ℕ, ◌+◌, ◌-◌, ◌≡◌, ◌∙◌, refl, arith, some, inl, inr}
use url_shortner.Text.{Text, text_eq}
use url_shortner.Ports.{Context}
use url_shortner.Time.{Duration}
use url_shortner.Application.Cache.{
  RedirectCacheConfig, new_cache_aside_resolver, new_redirect_cache_refresher,
}
use url_shortner.Config.Loaded.{cache_config}
use url_shortner.Errors.{◌>>=◌, Error, Result, ok, err, wrap}
use url_shortner.Config.{Config, storage_memory, storage_postgres, cache_none, cache_redis}
use url_shortner.Server.{
  pinged, opened, closed, with_client, source, redirect_cache, PostgresPool, RedisClient,
  StorageDependencies, ResolverDependencies, Services, build_storage, memory_storage,
  postgres_storage, build_link_resolver, redis_resolver,
}
use url_shortner.Server.Process.{routes, Outside, storage_of, resolver_of}

-- A count of what the process holds: its signals, and the pools that are open. A pool that is opened
-- counts until it is closed; nothing else changes the count.
pub record HoldsLaws {S : Type 0} (o : Outside S) (held : S → ℕ) : Type 0 where
  pub notify_held : (s : S) → held (o.notify s).1 ≡ held s + 1
  pub stop_held : (s : S) → held (o.stop s) ≡ held s - 1
  pub open_err :
      (ctx : Context) (url : Text) (s : S) (e : Error)
      → (o.open_pool ctx url s).0 ≡ err e
      → held (o.open_pool ctx url s).1 ≡ held s
  pub open_ok :
      (ctx : Context) (url : Text) (s : S) (p : PostgresPool S)
      → (o.open_pool ctx url s).0 ≡ ok p
      → (held (o.open_pool ctx url s).1 ≡ held s + 1)
        × ((c : Context) (t : S) → held (p.ping c t).1 ≡ held t)
        × ((t : S) → held (p.close t) ≡ held t - 1)
  pub client_held :
      (url : Text) (c : RedisClient S)
      → o.parse_url url ≡ ok c
      → (t : S) → held (c.close t) ≡ held t
  pub wait_held :
      (cfg : Config) (d : Services S) (s : S) → held ((o.listen cfg routes d).wait s).1 ≡ held s
  pub shutdown_held :
      (cfg : Config) (d : Services S) (t : Duration) (s : S)
      → held ((o.listen cfg routes d).shutdown t s).1 ≡ held s
  pub close_held :
      (cfg : Config) (d : Services S) (s : S) → held ((o.listen cfg routes d).close s).1 ≡ held s
  pub error_held :
      (cfg : Config) (d : Services S) (s : S)
      → held ((o.listen cfg routes d).server_error s).1 ≡ held s

module _ {S : Type 0} (o : Outside S) (held : S → ℕ) (laws : HoldsLaws o held) where
  -- What is known of the count before and after the storage was opened: the cleanup of a storage that
  -- is open takes away what it added.
  unfoldable pub StorageHeld : Result (StorageDependencies S) → ℕ → ℕ → Type 0
  StorageHeld (ok storage) before after =
      (t : S) → held t ≡ after → held (storage.cleanup t) ≡ before
  StorageHeld (err e) before after = after ≡ before

  pinged-held :
      (p : PostgresPool S) (answer : Result (Unit {0})) (s : S) (before : ℕ)
      → ((t : S) → held (p.close t) ≡ held t - 1)
      → held s ≡ before + 1
      → StorageHeld (pinged o.lib p answer s).0 before (held (pinged o.lib p answer s).1)
  unfolding StorageHeld postgres_storage
  pinged-held p (ok live) s before closes one = λ t same. closes t ∙ omega arith
  pinged-held p (err e) s before closes one = closes s ∙ omega arith

  opened-held :
      (ctx : Context) (r : Result (PostgresPool S)) (url : Text) (s : S)
      → (o.open_pool ctx url s).0 ≡ r
      → let s' = (o.open_pool ctx url s).1 in
        StorageHeld (opened o.lib ctx r s').0 (held s) (held (opened o.lib ctx r s').1)
  unfolding StorageHeld
  opened-held ctx (err e) url s h = laws.open_err ctx url s e h
  opened-held ctx (ok p) url s h =
      let (one, pings, closes) = laws.open_ok ctx url s p h in
      let s' = (o.open_pool ctx url s).1 in
      pinged-held p (p.ping ctx s').0 (p.ping ctx s').1 (held s) closes (pings ctx s' ∙ one)

  pub storage_held :
      (ctx : Context) (cfg : Config) (s : S)
      → StorageHeld (storage_of o ctx cfg s).0 (held s) (held (storage_of o ctx cfg s).1)
  unfolding build_storage memory_storage StorageHeld
  storage_held ctx cfg s = elim (Bool-cases (text_eq cfg.storage storage_memory)) [
    | inl kept ↦ rw kept (λ t same. same)
    | inr other ↦ elim (Bool-cases (text_eq cfg.storage storage_postgres)) [
      | inl kept ↦
          rw (other, kept)
            (opened-held ctx (o.open_pool ctx cfg.database_url s).0 cfg.database_url s refl)
      | inr unknown ↦ rw (other, unknown) refl
    ]
  ]

  -- The cleanup of a resolver leaves the count alone.
  unfoldable pub ResolverHeld : Result (ResolverDependencies S) → Type 0
  ResolverHeld (ok resolver) = (t : S) → held (resolver.cleanup t) ≡ held t
  ResolverHeld (err e) = Unit

  closed-held :
      (storage : StorageDependencies S) (client : RedisClient S)
      (r : Result (ResolverDependencies S)) (s : S)
      → ((t : S) → held (client.close t) ≡ held t)
      → ResolverHeld r
      → let x = closed o.lib o.with_timeout storage.repository o.clock o.cache_metrics client r s in
        ResolverHeld x.0 × (held x.1 ≡ held s)
  closed-held storage client (ok d) s closes h = (h, refl)
  closed-held storage client (err e) s closes h = (unfold ResolverHeld in tt, closes s)

  then_held :
      {A : Type 0} (r : Result A) (f : A → Result (ResolverDependencies S))
      → ((a : A) → ResolverHeld (f a))
      → ResolverHeld (r >>= f)
  unfolding ResolverHeld
  then_held (ok a) f h = h a
  then_held (err e) f h = tt

  redis_resolver-held :
      (storage : StorageDependencies S) (client : RedisClient S) (config : RedirectCacheConfig)
      → ((t : S) → held (client.close t) ≡ held t)
      → ResolverHeld (
          redis_resolver o.lib o.with_timeout storage.repository o.clock o.cache_metrics client
            config)
  unfolding redis_resolver ResolverHeld
  redis_resolver-held storage client config closes =
      then_held
        (wrap (
          new_cache_aside_resolver (redirect_cache o.lib client)
            (source o.lib o.with_timeout storage.repository o.clock o.cache_metrics) o.clock config
            (some o.cache_metrics)))
        _
        λ resolver.
          then_held
            (wrap (new_redirect_cache_refresher (redirect_cache o.lib client) o.clock config)) _
            λ refresher t. closes t

  with_client-held :
      (storage : StorageDependencies S) (url : Text) (r : Result (RedisClient S))
      (config : RedirectCacheConfig) (s : S)
      → o.parse_url url ≡ r
      → let x =
          with_client o.lib o.with_timeout storage.repository o.clock o.cache_metrics r config s in
        ResolverHeld x.0 × (held x.1 ≡ held s)
  with_client-held storage url (err e) config s h = (unfold ResolverHeld in tt, refl)
  with_client-held storage url (ok client) config s h =
      let closes = laws.client_held url client h in
      closed-held storage client
        (redis_resolver o.lib o.with_timeout storage.repository o.clock o.cache_metrics client
          config)
        s closes (redis_resolver-held storage client config closes)

  pub resolver_held :
      (storage : StorageDependencies S) (cfg : Config) (s : S)
      → let x = resolver_of o storage cfg s in ResolverHeld x.0 × (held x.1 ≡ held s)
  unfolding build_link_resolver ResolverHeld
  resolver_held storage cfg s = elim (Bool-cases (text_eq cfg.cache cache_none)) [
    | inl plain ↦ rw plain (λ t. refl, refl)
    | inr other ↦ elim (Bool-cases (text_eq cfg.cache cache_redis)) [
      | inl cached ↦
          rw (other, cached)
            (with_client-held storage cfg.redis_url (o.parse_url cfg.redis_url) (cache_config cfg) s
              refl)
      | inr unknown ↦ rw (other, unknown) (tt, refl)
    ]
  ]
