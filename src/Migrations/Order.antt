-- ===== src/Migrations/Order.antt =====
-- What the discovered migrations are.
use mathlib.Core.Path.{subst, sym, ap}
use url_shortner.Prelude.{
  ℕ, ◌<◌, ◌≡◌, ◌∙◌, refl, Bool, true, false, ◌||◌, Option, none, some, List, [], ◌∷◌, ◌++◌, ◌==◌,
  ltb, arith, All, if◌then◌else◌, Bool-cases, inl, inr, Option-cases,
}
use url_shortner.Prelude.Int.{ℤ, pos, negsuc}
use url_shortner.Text.{Text, text_eq, text_eq_refl}
use url_shortner.Errors.{Result, ok, ◌>>=◌, Result-cases}
use url_shortner.Redis.Decode.{parse_int}
use url_shortner.Migrations.{
  Entry, Migration, migration_digits, positive_version, has_version, insert_sorted, sort_by_version,
  add_migration, consider, collect, discover_migrations,
}

-- Each version is above the bound and above those before it.
abbrev pub Ascends : ℕ → List Migration → Type 0
Ascends low [] = Unit
Ascends low (m ∷ ms) = (low < m.version) × Ascends m.version ms

-- The versions are above 0, and no two are the same.
abbrev Distinct : List Migration → Type 0
Distinct [] = Unit
Distinct (m ∷ ms) = (0 < m.version) × (has_version m.version ms ≡ false) × Distinct ms

has_version-insert_sorted :
    (v : ℕ) (m : Migration) (ms : List Migration)
    → has_version v (insert_sorted m ms) ≡ (m.version == v) || has_version v ms
unfolding has_version insert_sorted
has_version-insert_sorted v m [] = refl
has_version-insert_sorted v m (n ∷ ns) = ground (arith, has_version-insert_sorted v m ns)

has_version-sort_by_version :
    (v : ℕ) (ms : List Migration) → has_version v (sort_by_version ms) ≡ has_version v ms
unfolding has_version sort_by_version
has_version-sort_by_version v [] = refl
has_version-sort_by_version v (m ∷ ms) =
    ground
      (arith, has_version-insert_sorted v m (sort_by_version ms), has_version-sort_by_version v ms)

Ascends-insert_sorted :
    (low : ℕ) (m : Migration) (ms : List Migration)
    → low < m.version
    → has_version m.version ms ≡ false
    → Ascends low ms
    → Ascends low (insert_sorted m ms)
unfolding has_version insert_sorted
Ascends-insert_sorted low m [] above new up = (above, tt)
Ascends-insert_sorted low m (n ∷ ns) above new up = elim (Bool-cases (ltb m.version n.version)) [
  | inl before ↦ rw before (above, (ground arith, up.1))
  | inr after ↦
      rw after (up.0, Ascends-insert_sorted n.version m ns (ground arith) (ground arith) up.1)
]

Ascends-sort_by_version : (ms : List Migration) → Distinct ms → Ascends 0 (sort_by_version ms)
unfolding sort_by_version
Ascends-sort_by_version [] d = tt
Ascends-sort_by_version (m ∷ ms) (above, new, rest) =
    Ascends-insert_sorted 0 m (sort_by_version ms) above
      (has_version-sort_by_version m.version ms ∙ new) (Ascends-sort_by_version ms rest)

has_version-append :
    (v : ℕ) (ms ns : List Migration)
    → has_version v (ms ++ ns) ≡ has_version v ms || has_version v ns
unfolding has_version
has_version-append v [] ns = refl
has_version-append v (m ∷ ms) ns = ground (arith, has_version-append v ms ns)

Distinct-snoc :
    (ms : List Migration) (m : Migration)
    → 0 < m.version
    → has_version m.version ms ≡ false
    → Distinct ms
    → Distinct (ms ++ m ∷ [])
unfolding has_version
Distinct-snoc [] m above new d = (above, refl, tt)
Distinct-snoc (n ∷ ns) m above new (n_above, other, rest) = (
  n_above,
  has_version-append n.version ns (m ∷ []) ∙ ground (arith, other),
  Distinct-snoc ns m above (ground arith) rest,
)

positive_version-above : (o : Option ℤ) (v : ℕ) → positive_version o ≡ ok v → 0 < v
positive_version-above none v h = absurd (ground arith)
positive_version-above (some (pos n)) v h = ground arith
positive_version-above (some (negsuc n)) v h = absurd (ground arith)

-- A migration with this file's name.
abbrev pub has_name : Text → List Migration → Bool
has_name name [] = false
has_name name (m ∷ ms) = text_eq m.name name || has_name name ms

has_name-append :
    (name : Text) (ms ns : List Migration)
    → has_name name (ms ++ ns) ≡ has_name name ms || has_name name ns
has_name-append name [] ns = refl
has_name-append name (m ∷ ms) ns = ground (arith, has_name-append name ms ns)

has_name-insert_sorted :
    (name : Text) (m : Migration) (ms : List Migration)
    → has_name name (insert_sorted m ms) ≡ text_eq m.name name || has_name name ms
unfolding insert_sorted
has_name-insert_sorted name m [] = refl
has_name-insert_sorted name m (n ∷ ns) = ground (arith, has_name-insert_sorted name m ns)

has_name-sort_by_version :
    (name : Text) (ms : List Migration) → has_name name (sort_by_version ms) ≡ has_name name ms
unfolding sort_by_version
has_name-sort_by_version name [] = refl
has_name-sort_by_version name (m ∷ ms) =
    ground
      (arith, has_name-insert_sorted name m (sort_by_version ms), has_name-sort_by_version name ms)

module _ (sha256_hex : Text → Text) where
  -- What add_migration adds.
  record Added (entry : Entry) (found now : List Migration) : Type 0 where
    migration : Migration
    above : 0 < migration.version
    new : has_version migration.version found ≡ false
    appended : now ≡ found ++ migration ∷ []
    named : migration.name ≡ entry.name
    read : entry.contents ≡ some migration.sql
    hashed : migration.checksum ≡ sha256_hex migration.sql

  add_migration-Added :
      (entry : Entry) (digits : Text) (found now : List Migration)
      → add_migration sha256_hex entry digits found ≡ ok now
      → Added entry found now
  unfolding add_migration
  add_migration-Added entry digits found now h =
      elim (Result-cases (positive_version (parse_int digits))) [
        | inr (e, bad) ↦ absurd (ground arith)
        | inl (v, good) ↦ elim (Bool-cases (has_version v found)) [
          | inl twice ↦ absurd (ground arith)
          | inr new ↦ elim (Option-cases entry.contents) [
            | inl unread ↦ absurd (ground arith)
            | inr (contents, read) ↦ record {
              migration = record {
                version = v;
                name = entry.name;
                sql = contents;
                checksum = sha256_hex contents;
              };
              above = positive_version-above (parse_int digits) v good;
              new = new;
              appended = ground arith;
              named = refl;
              read = read;
              hashed = refl;
            }
          ]
        ]
      ]

  -- Every file of the directory whose name matches is among the migrations.
  abbrev pub Covered : List Migration → Entry → Type 0
  Covered ms entry =
      (digits : Text)
      → entry.is_dir ≡ false
      → migration_digits entry.name ≡ some digits
      → has_name entry.name ms ≡ true

  -- What one turn of the loop keeps and adds.
  record Turn (entry : Entry) (found now : List Migration) : Type 0 where
    distinct : Distinct found → Distinct now
    covered : Covered now entry
    grows : (name : Text) → has_name name found ≡ true → has_name name now ≡ true

  Added-Turn :
      (entry : Entry) (found now : List Migration) → Added entry found now → Turn entry found now
  Added-Turn entry found now a =
      let m = a.migration in
      subst (Turn entry found) (sym a.appended) (record {
        distinct = Distinct-snoc found m a.above a.new;
        covered = λ digits file named.
            has_name-append entry.name found (m ∷ [])
            ∙ ground
                (arith, ap (λ (n : Text). text_eq n entry.name) a.named, text_eq_refl entry.name);
        grows = λ name h. has_name-append name found (m ∷ []) ∙ rw h refl;
      })

  skip-Turn :
      (entry : Entry) (found : List Migration) → Covered found entry → Turn entry found found
  skip-Turn entry found c = record { distinct = λ d. d; covered = c; grows = λ name held. held }

  turn :
      (entry : Entry) (digits : Option Text) (found now : List Migration)
      → migration_digits entry.name ≡ digits
      → (if entry.is_dir then ok found else consider sha256_hex entry digits found) ≡ ok now
      → Turn entry found now
  turn entry none found now e h =
      let same : found ≡ now = ground arith in
      subst (Turn entry found) same
        (skip-Turn entry found (λ digits file named. absurd (ground (arith, e, named))))
  turn entry (some digits) found now e h = elim (Bool-cases entry.is_dir) [
    | inl dir ↦
        let same : found ≡ now = ground arith in
        subst (Turn entry found) same
          (skip-Turn entry found (λ digits file named. absurd (ground (arith, dir, file))))
    | inr file ↦
        Added-Turn entry found now (add_migration-Added entry digits found now (ground arith))
  ]

  pub collect-All :
      (entries : List Entry) (found ms : List Migration)
      → collect sha256_hex entries found ≡ ok ms
      → (Distinct found → Distinct ms)
        × All (Covered ms) entries
        × ((name : Text) → has_name name found ≡ true → has_name name ms ≡ true)
  unfolding collect
  collect-All [] found ms h =
      let same : found ≡ ms = ground arith in
      (subst Distinct same, tt, λ name held. ground (arith, same, held))
  collect-All (entry ∷ rest) found ms h =
      let step =
        if entry.is_dir
        then ok found
        else consider sha256_hex entry (migration_digits entry.name) found in
      elim (Result-cases step) [
        | inr (e, failed) ↦ absurd (ground (arith, failed))
        | inl (now, went) ↦
            let t = turn entry (migration_digits entry.name) found now refl went in
            let on : collect sha256_hex rest now ≡ ok ms =
              sym (ap (λ (r : Result (List Migration)). r >>= collect sha256_hex rest) went) ∙ h in
            let (distinct, all, grows) = collect-All rest now ms on in
            (
              λ d. distinct (t.distinct d),
              (λ digits file named. grows entry.name (t.covered digits file named), all),
              λ name held. grows name (t.grows name held),
            )
      ]

  Covered-sort_by_version :
      (found : List Migration) (entries : List Entry)
      → All (Covered found) entries
      → All (Covered (sort_by_version found)) entries
  Covered-sort_by_version found [] all = tt
  Covered-sort_by_version found (entry ∷ rest) (one, all) = (
    λ digits file named. has_name-sort_by_version entry.name found ∙ one digits file named,
    Covered-sort_by_version found rest all,
  )

  -- The migrations that are discovered come in strictly ascending order of their versions, which are
  -- above 0, and every file of the directory whose name matches the pattern is among them.
  pub discover_migrations-Ascends :
      (entries : List Entry) (ms : List Migration)
      → discover_migrations sha256_hex (some entries) ≡ ok ms
      → Ascends 0 ms × All (Covered ms) entries
  unfolding discover_migrations
  discover_migrations-Ascends entries ms h = elim (Result-cases (collect sha256_hex entries [])) [
    | inr (e, failed) ↦ absurd (ground (arith, failed))
    | inl (found, went) ↦
        let (distinct, all, grows) = collect-All entries [] found went in
        let same : sort_by_version found ≡ ms = ground (arith, went) in
        subst (λ (ts : List Migration). Ascends 0 ts × All (Covered ts) entries) same
          (Ascends-sort_by_version found (distinct tt), Covered-sort_by_version found entries all)
  ]
