-- ===== src/Application/Cache/Transparency.antt =====
-- The cache is an optimisation: its failures, and the writes to it, never show in an answer.
use url_shortner.Prelude.{ℕ, sym, ◌≡◌, ◌∙◌, ap, refl, Option, none, some, arith}
use url_shortner.Text.{Text}
use url_shortner.Time.{Duration}
use url_shortner.Errors.{Error, Result, ok, err}
use url_shortner.Io.{Io, attempt, ◌>>=◌}
use url_shortner.Io.Inversion.{bind_of_ok}
use url_shortner.Domain.Link.{Link}
use url_shortner.Domain.Mapping.{RedirectMapping}
use url_shortner.Ports.{Context, LinkRepository}
use url_shortner.Ports.Laws.{Table, RepositoryLaws}
use url_shortner.Application.Cache.{
  RedirectCacheMetrics, CacheAsideResolver, WithTimeout, recorded, cache_get, get_result,
  write_back, filled, after_get, resolve, refreshing_update, cache_refreshing_repository,
}

module _ {S : Type 0} where
  recorded_ok :
      (call : RedirectCacheMetrics S → Text → S → S) (o : Option (RedirectCacheMetrics S))
      (label : Text) (s : S)
      → (recorded call o label s).0 ≡ ok tt
  recorded_ok call none label s = refl
  recorded_ok call (some m) label s = refl

module _ {S : Type 0} (with_timeout : WithTimeout) (r : CacheAsideResolver S) where
  write_back_answer :
      (ctx : Context) (m : RedirectMapping) (ttl : Duration) (s : S)
      → (write_back with_timeout r ctx m ttl s).0 ≡ ok m
  unfolding write_back
  write_back_answer ctx m ttl s = ground arith

  filled_answer :
      (ctx : Context) (found : Result RedirectMapping) (s : S)
      → (filled with_timeout r ctx found s).0 ≡ found
  unfolding filled
  filled_answer ctx (err e) s = ground arith
  filled_answer ctx (ok m) s = ground arith

  -- The state after a failed read was counted.
  abbrev pub counted : Error → S → S
  counted e s = (cache_get with_timeout r (get_result with_timeout r e) s).1

  -- What the resolver should answer, from the cache's answer and the state that it left.
  abbrev pub expected_answer : Context → Text → Result RedirectMapping → S → Result RedirectMapping
  expected_answer ctx code (ok m) s = ok m
  expected_answer ctx code (err e) s = (r.source.resolve ctx code (counted e s)).0

  after_get_answer :
      (ctx : Context) (code : Text) (found : Result RedirectMapping) (s : S)
      → (after_get with_timeout r ctx code found s).0 ≡ expected_answer ctx code found s
  unfolding after_get
  after_get_answer ctx code (ok m) s = ground arith
  after_get_answer ctx code (err e) s =
      let label = get_result with_timeout r e in
      let source = λ (t : S). r.source.resolve ctx code t in
      let answered = recorded_ok (λ m. m.record_cache_get) r.metrics label s in
      ap (λ (p : Result RedirectMapping × S). p.0)
        (bind_of_ok (cache_get with_timeout r label)
          (λ _. attempt (r.source.resolve ctx code) >>= λ found. filled with_timeout r ctx found) s
          answered)
      ∙ filled_answer ctx (source (counted e s)).0 (source (counted e s)).1

  -- Resolve answers with a cache hit, and in every other case, whatever error the cache gave and
  -- however the write-back went, with exactly what the source of truth answers.
  pub resolve_answer :
      (ctx : Context) (code : Text) (s : S)
      → (let got = r.cache.get (with_timeout ctx r.config.operation_timeout) code s in
          (resolve with_timeout r ctx code s).0 ≡ expected_answer ctx code got.0 got.1)
  unfolding resolve
  resolve_answer ctx code s =
      let got = r.cache.get (with_timeout ctx r.config.operation_timeout) code s in
      after_get_answer ctx code got.0 got.1

module _ {S : Type 0} (source : LinkRepository S)
    (refresher : Context → Link → Io S (Unit {0})) where
  -- An update through the decorator answers as the source does, whatever the cache refresh does.
  pub refreshing_update_answer :
      (ctx : Context) (l : Link) (expected : ℕ) (s : S)
      → (refreshing_update source refresher ctx l expected s).0 ≡ (source.update ctx l expected s).0
  unfolding refreshing_update
  refreshing_update_answer ctx l expected s = ground arith

  refreshed :
      (ctx : Context) (l : Link) (expected : ℕ) (s : S)
      → (source.update ctx l expected s).0 ≡ ok tt
      → (refreshing_update source refresher ctx l expected s).1
        ≡ (refresher ctx l (source.update ctx l expected s).1).1
  unfolding refreshing_update
  refreshed ctx l expected s h = ground arith

  not_refreshed :
      (ctx : Context) (l : Link) (expected : ℕ) (s : S) (e : Error)
      → (source.update ctx l expected s).0 ≡ err e
      → (refreshing_update source refresher ctx l expected s).1 ≡ (source.update ctx l expected s).1
  unfolding refreshing_update
  not_refreshed ctx l expected s e h = ground arith

  module _ {table : S → Table} (laws : RepositoryLaws source table)
      (refresh_keeps : (ctx : Context) (l : Link) (s : S)
        → table (refresher ctx l s).1 ≡ table s) where
    -- With a refresher that leaves the table of links alone, the cache-refreshing repository is a
    -- link repository over the same table as its source.
    pub refreshing_laws : RepositoryLaws (cache_refreshing_repository source refresher) table
    refreshing_laws = record {
      find_keeps = laws.find_keeps;
      find_ok = laws.find_ok;
      insert_ok = laws.insert_ok;
      insert_err = laws.insert_err;
      update_ok = λ ctx l expected s h.
          let done = sym (refreshing_update_answer ctx l expected s) ∙ h in
          let (stored, found, version, kept) = laws.update_ok ctx l expected s done in
          (
            stored,
            found,
            version,
            ap table (refreshed ctx l expected s done)
                ∙ refresh_keeps ctx l (source.update ctx l expected s).1
                ∙ kept,
          );
      update_err = λ ctx l expected s e h.
          let failed = sym (refreshing_update_answer ctx l expected s) ∙ h in
          ap table (not_refreshed ctx l expected s e failed)
          ∙ laws.update_err ctx l expected s e failed;
    }
