-- ===== src/Server/InMemory.antt =====
-- The server with its stores in memory and no cache.
use mathlib.Core.Path.{ap}
use url_shortner.Prelude.{◌≡◌, ◌∙◌}
use url_shortner.Ports.Laws.{Table, RepositoryLaws, FindsStored, StoreLaws}
use url_shortner.Memory.Repository.{Links, insert, find_by_code, update}
use url_shortner.Memory.Repository.Refinement.{repository_laws, FindsStored-repository}
use url_shortner.Memory.Repository.Refinement
use url_shortner.Memory.Idempotency.{Records, SameLink, save_record}
use url_shortner.Memory.Idempotency.Records.{
  SoundSame, record_of, get_ok, get_keeps, get_stored, save_ok,
}
use url_shortner.Server.{Memory, memory_storage}

-- What the three stores of a process rely on: each is kept as it is put, and the records apart from
-- the links.
pub record MemoryLaws {S : Type 0} (memory : Memory S) : Type 0 where
  pub links_put : (t : Links) (s : S) → memory.links.view (memory.links.put t s) ≡ t
  pub records_put : (t : Records) (s : S) → memory.records.view (memory.records.put t s) ≡ t
  pub records_view : (s : S) → memory.records.put (memory.records.view s) s ≡ s
  pub records_apart :
      (t : Records) (s : S) → memory.links.view (memory.records.put t s) ≡ memory.links.view s

module _ {S : Type 0} (same : SameLink) (memory : Memory S) (laws : MemoryLaws memory) where
  abbrev pub table : S → Table
  table s = Refinement.table (memory.links.view s)

  left : (t : Links) (s : S) → table (memory.links.put t s) ≡ Refinement.table t
  left t s = ap Refinement.table (laws.links_put t s)

  pub memory_storage-RepositoryLaws : RepositoryLaws (memory_storage same memory).repository table
  unfolding memory_storage
  memory_storage-RepositoryLaws = record {
    find_keeps = λ ctx code s.
        left (find_by_code ctx code (memory.links.view s)).1 s
        ∙ repository_laws.find_keeps ctx code (memory.links.view s);
    find_ok = λ ctx code s. repository_laws.find_ok ctx code (memory.links.view s);
    insert_ok = λ ctx l s h.
        (let (free, new) = repository_laws.insert_ok ctx l (memory.links.view s) h in
          (free, left (insert ctx l (memory.links.view s)).1 s ∙ new));
    insert_err = λ ctx l s e h.
        left (insert ctx l (memory.links.view s)).1 s
        ∙ repository_laws.insert_err ctx l (memory.links.view s) e h;
    update_ok = λ ctx l expected s h.
        (let (stored, there, version, new) =
            repository_laws.update_ok ctx l expected (memory.links.view s) h in
          (stored, there, version, left (update ctx l expected (memory.links.view s)).1 s ∙ new));
    update_err = λ ctx l expected s e h.
        left (update ctx l expected (memory.links.view s)).1 s
        ∙ repository_laws.update_err ctx l expected (memory.links.view s) e h;
  }

  pub memory_storage-FindsStored : FindsStored (memory_storage same memory).repository table
  unfolding memory_storage
  memory_storage-FindsStored = record {
    find_stored = λ code s. FindsStored-repository.find_stored code (memory.links.view s);
  }

  pub memory_storage-StoreLaws :
      SoundSame same → StoreLaws table (memory_storage same memory).idempotency_store
  unfolding memory_storage
  memory_storage-StoreLaws sound = record {
    record_of = λ s. record_of (memory.records.view s);
    get_keeps = λ ctx owner key s.
        ap (λ (r : Records). memory.records.put r s)
          (get_keeps ctx owner key (memory.records.view s))
        ∙ laws.records_view s;
    get_ok = λ ctx owner key s. get_ok ctx owner key (memory.records.view s);
    get_stored = λ owner key s. get_stored owner key (memory.records.view s);
    save_keeps = λ ctx owner key l s.
        ap Refinement.table
          (laws.records_apart (save_record same ctx owner key l (memory.records.view s)).1 s);
    save_ok = λ ctx owner key l s h.
        rw (laws.records_put (save_record same ctx owner key l (memory.records.view s)).1 s)
          (save_ok same ctx owner key l (memory.records.view s) sound h);
  }
