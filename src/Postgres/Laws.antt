-- ===== src/Postgres/Laws.antt =====
-- What the adapters rely on in the database: the tables behind its state, and what each statement
-- that the server has carried out reads and writes, with the columns and keys of
-- migrations/postgres. A timestamptz keeps whole microseconds.
use url_shortner.Prelude.{
  ℕ, ◌*◌, ◌/◌, ◌≡◌, Bool, true, false, ◌&&◌, Option, none, some, ◌==◌, if◌then◌else◌,
}
use url_shortner.Prelude.Int.{pos, negsuc}
use url_shortner.Text.{Text, text_eq}
use url_shortner.Time.{Time}
use url_shortner.Ports.{Context}
use url_shortner.Postgres.{
  LinkRow, UpdateArguments, no_rows, server, refused, done, Pool, is_unique_violation,
}
use mathlib.Core.Option

abbrev pub to_microsecond : Time → Time
to_microsecond t = t / 1000 * 1000

abbrev pub is_some {ℓ} : {A : Type ℓ} → Option A → Bool
is_some none = false
is_some (some a) = true

-- The row as the table keeps it.
abbrev pub kept : LinkRow → LinkRow
kept r = record r {
  created_at = to_microsecond r.created_at;
  updated_at = to_microsecond r.updated_at;
  expires_at = Option.map to_microsecond r.expires_at;
}

-- The row after the update.
abbrev pub changed : UpdateArguments → LinkRow → LinkRow
changed a r = record r {
  destination_url = a.destination_url;
  status = a.status;
  updated_at = to_microsecond a.updated_at;
  expires_at = Option.map to_microsecond a.expires_at;
  version = pos a.version;
}

abbrev pub has_version : ℕ → LinkRow → Bool
has_version expected r = elim (r.version) [ pos n ↦ n == expected | negsuc n ↦ false ]

-- `where code = $6 and version = $7`, on the row under the code
abbrev pub matches : ℕ → Option LinkRow → Bool
matches expected none = false
matches expected (some r) = has_version expected r

abbrev pub count_of : Bool → ℕ
count_of b = if b then 1 else 0

-- `on conflict (owner_id, key) do nothing`: the rows affected, and the entry before and after.
abbrev pub KeyInserted : Text → ℕ → Option Text → Option Text → Type 0
KeyInserted code n none entry = (n ≡ 1) × (entry ≡ some code)
KeyInserted code n (some c) entry = (n ≡ 0) × (entry ≡ some c)

pub record PoolLaws {S : Type 0} (pool : Pool S) : Type 0 where
  pub links : S → Text → Option LinkRow
  pub keys : S → Text → Text → Option Text
  pub insert_link_done :
      (ctx : Context) (r : LinkRow) (s : S) (n : ℕ)
      → (pool.insert_link ctx r s).0 ≡ done n
      → (links s r.code ≡ none)
        × ((c : Text)
            → links (pool.insert_link ctx r s).1 c
              ≡ (if text_eq r.code c then some (kept r) else links s c))
  pub insert_link_refused :
      (ctx : Context) (r : LinkRow) (s : S) (code : Text)
      → (pool.insert_link ctx r s).0 ≡ refused (server code)
      → ((c : Text) → links (pool.insert_link ctx r s).1 c ≡ links s c)
        × (is_unique_violation (server code) ≡ true → is_some (links s r.code) ≡ true)
  pub update_link_done :
      (ctx : Context) (a : UpdateArguments) (s : S) (n : ℕ)
      → (pool.update_link ctx a s).0 ≡ done n
      → (n ≡ count_of (matches a.expected_version (links s a.code)))
        × ((c : Text)
            → links (pool.update_link ctx a s).1 c ≡ (
                if matches a.expected_version (links s a.code) && text_eq a.code c
                then Option.map (changed a) (links s a.code)
                else links s c))
  pub select_link_done :
      (ctx : Context) (code : Text) (s : S) (r : LinkRow)
      → (pool.select_link ctx code s).0 ≡ done r
      → links s code ≡ some r
  pub select_link_no_rows :
      (ctx : Context) (code : Text) (s : S)
      → (pool.select_link ctx code s).0 ≡ refused no_rows
      → links s code ≡ none
  pub select_exists_done :
      (ctx : Context) (code : Text) (s : S) (b : Bool)
      → (pool.select_exists ctx code s).0 ≡ done b
      → b ≡ is_some (links s code)
  pub select_exists_keeps :
      (ctx : Context) (code c : Text) (s : S)
      → links (pool.select_exists ctx code s).1 c ≡ links s c
  pub insert_key_done :
      (ctx : Context) (owner key code : Text) (t : Time) (s : S) (n : ℕ)
      → (pool.insert_key ctx owner key code t s).0 ≡ done n
      → KeyInserted code n
          (keys s owner key)
          (keys (pool.insert_key ctx owner key code t s).1 owner key)
  pub select_key_done :
      (ctx : Context) (owner key : Text) (s : S) (c : Text)
      → (pool.select_key ctx owner key s).0 ≡ done c
      → keys s owner key ≡ some c
  pub select_key_keeps :
      (ctx : Context) (owner key : Text) (s : S)
      → keys (pool.select_key ctx owner key s).1 owner key ≡ keys s owner key
