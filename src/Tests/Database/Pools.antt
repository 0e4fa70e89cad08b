-- ===== src/Tests/Database/Pools.antt =====
-- A pool over two tables in memory. It keeps one transaction's work in one statement and always
-- answers.
use url_shortner.Prelude.{
  ℕ, ◌≡◌, refl, Bool, true, ◌&&◌, Option, none, some, GoMap, arith, if◌then◌else◌,
}
use url_shortner.Prelude.Maps.{lookup, insert, lookup-insert, lookup-insert_self}
use url_shortner.Text.{Text, codes, text_eq, text_key}
use url_shortner.Memory.Idempotency.{IdempotencyKey, idempotency_key_key}
use url_shortner.Postgres.{
  LinkRow, UpdateArguments, DbError, no_rows, server, Answer, refused, done, Pool,
  is_unique_violation,
}
use url_shortner.Postgres.Laws.{
  PoolLaws, KeyInserted, is_some, kept, changed, matches, count_of, has_version,
}
use mathlib.Core.Option

pub record Tables : Type 0 where
  pub rows : GoMap Text LinkRow
  pub keys : GoMap IdempotencyKey Text

abbrev unique_violation : DbError
unique_violation = server (codes "23505")

abbrev insert_over : LinkRow → Tables → Option LinkRow → Answer ℕ × Tables
insert_over r t none = (done 1, record t { rows = insert r.code (kept r) t.rows })
insert_over r t (some old) = (refused unique_violation, t)

abbrev update_over : UpdateArguments → Tables → Option LinkRow → Answer ℕ × Tables
update_over a t none = (done 0, t)
update_over a t (some old) =
    if has_version a.expected_version old
    then (done 1, record t { rows = insert a.code (changed a old) t.rows })
    else (done 0, t)

abbrev selected {ℓ} : {A : Type ℓ} → Option A → Answer A
selected none = refused no_rows
selected (some a) = done a

abbrev key_over : IdempotencyKey → Text → Tables → Option Text → Answer ℕ × Tables
key_over k code t none = (done 1, record t { keys = insert k code t.keys })
key_over k code t (some old) = (done 0, t)

abbrev pub pool : Pool Tables
pool = record {
  insert_link = λ ctx r t. insert_over r t (lookup r.code t.rows);
  update_link = λ ctx a t. update_over a t (lookup a.code t.rows);
  select_link = λ ctx code t. (selected (lookup code t.rows), t);
  select_exists = λ ctx code t. (done (is_some (lookup code t.rows)), t);
  select_key =
      λ ctx owner key t. (selected (lookup (record { owner_id = owner; key = key }) t.keys), t);
  insert_key = λ ctx owner key code at t.
      (let k : IdempotencyKey = record { owner_id = owner; key = key } in
        key_over k code t (lookup k t.keys));
  insert_event = λ ctx event t. (done 1, t);
}

pub insert_over-done :
    (r : LinkRow) (t : Tables) (before : Option LinkRow) (n : ℕ)
    → (insert_over r t before).0 ≡ done n
    → (before ≡ none)
      × ((c : Text)
          → lookup c (insert_over r t before).1.rows
            ≡ (if text_eq r.code c then some (kept r) else lookup c t.rows))
insert_over-done r t none n h = (refl, λ c. lookup-insert r.code c (kept r) t.rows)
insert_over-done r t (some old) n h = absurd (ground arith)

pub insert_over-refused :
    (r : LinkRow) (t : Tables) (before : Option LinkRow) (code : Text)
    → (insert_over r t before).0 ≡ refused (server code)
    → ((c : Text) → lookup c (insert_over r t before).1.rows ≡ lookup c t.rows)
      × (is_unique_violation (server code) ≡ true → is_some before ≡ true)
insert_over-refused r t none code h = absurd (ground arith)
insert_over-refused r t (some old) code h = (λ c. refl, λ u. refl)

pub update_over-done :
    (a : UpdateArguments) (t : Tables) (before : Option LinkRow) (n : ℕ)
    → (update_over a t before).0 ≡ done n
    → (n ≡ count_of (matches a.expected_version before))
      × ((c : Text)
          → lookup c (update_over a t before).1.rows ≡ (
              if matches a.expected_version before && text_eq a.code c
              then Option.map (changed a) before
              else lookup c t.rows))
update_over-done a t none n h = (ground arith, λ c. refl)
update_over-done a t (some old) n h =
    (ground arith, λ c. ground (arith, lookup-insert a.code c (changed a old) t.rows))

pub key_over-done :
    (k : IdempotencyKey) (code : Text) (t : Tables) (before : Option Text) (n : ℕ)
    → lookup k t.keys ≡ before
    → (key_over k code t before).0 ≡ done n
    → KeyInserted code n before (lookup k (key_over k code t before).1.keys)
key_over-done k code t none n held h = (ground arith, lookup-insert_self k code t.keys)
key_over-done k code t (some old) n held h = (ground arith, held)

pub selected-done {ℓ} : {A : Type ℓ} (o : Option A) {a : A} → selected o ≡ done a → o ≡ some a
selected-done none h = absurd (ground arith)
selected-done (some b) h = ground arith

pub selected-no_rows {ℓ} : {A : Type ℓ} (o : Option A) → selected o ≡ refused no_rows → o ≡ none
selected-no_rows none h = refl
selected-no_rows (some b) h = absurd (ground arith)

pub exists-done {ℓ} :
    {A : Type ℓ} (o : Option A) (b : Bool) → done (is_some o) ≡ done b → b ≡ is_some o
exists-done o b h = ground arith

abbrev pub pool_laws : PoolLaws pool
pool_laws = record {
  links = λ t c. lookup c t.rows;
  keys = λ t owner key. lookup (record { owner_id = owner; key = key }) t.keys;
  insert_link_done = λ ctx r t n h. insert_over-done r t (lookup r.code t.rows) n h;
  insert_link_refused = λ ctx r t code h. insert_over-refused r t (lookup r.code t.rows) code h;
  update_link_done = λ ctx a t n h. update_over-done a t (lookup a.code t.rows) n h;
  select_link_done = λ ctx code t r h. selected-done (lookup code t.rows) h;
  select_link_no_rows = λ ctx code t h. selected-no_rows (lookup code t.rows) h;
  select_exists_done = λ ctx code t b h. exists-done (lookup code t.rows) b h;
  select_exists_keeps = λ ctx code c t. refl;
  insert_key_done = λ ctx owner key code at t n h.
      (let k : IdempotencyKey = record { owner_id = owner; key = key } in
        key_over-done k code t (lookup k t.keys) n refl h);
  select_key_done = λ ctx owner key t c h.
      selected-done (lookup (record { owner_id = owner; key = key }) t.keys) h;
  select_key_keeps = λ ctx owner key t. refl;
}
