-- ===== src/Migrations.antt =====
-- internal/storage/postgres/migrations.go: which files of the directory are migrations, and in what
-- order they come. The directory, as os.ReadDir and os.ReadFile give it, and SHA-256 in hexadecimal
-- are parameters. The texts of the errors are left out.
pub mod Order
pub mod Run
pub mod Command
use url_shortner.Prelude.{
  ℕ, Bool, true, false, ◌&&◌, ◌||◌, not, Option, none, some, List, [], ◌∷◌, ◌++◌, ◌==◌, leb, ltb,
  if◌then◌else◌,
}
use url_shortner.Prelude.Int.{ℤ, pos, negsuc}
use url_shortner.Text.{Text, codes, text_eq, is_empty}
use url_shortner.Text.Decimal.{is_digit}
use url_shortner.Errors.{Error, Result, ok, err, foreign, wrapped, ◌>>=◌, ◌>>◌}
use url_shortner.Redis.Decode.{parse_int}

-- An entry of the directory; the contents are those of a file that can be read.
pub record Entry : Type 0 where
  pub name : Text
  pub is_dir : Bool
  pub contents : Option Text

pub record Migration : Type 0 where
  pub version : ℕ
  pub name : Text
  pub sql : Text
  pub checksum : Text

-- The leading digits of a text, and what follows them.
unfoldable pub span_digits : Text → Text × Text
span_digits [] = ([], [])
span_digits (c ∷ s) =
    let (digits, rest) = span_digits s in if is_digit c then (c ∷ digits, rest) else ([], c ∷ s)

-- What stands before ".sql" at the end of a text.
unfoldable pub stem : Text → Option Text
stem [] = none
stem (c ∷ s) =
    let rest = stem s in
    if text_eq (c ∷ s) (codes ".sql")
    then some []
    else elim rest [ none ↦ none | some t ↦ some (c ∷ t) ]

-- `.+`: not empty, and no line break
unfoldable pub all_dots : Text → Bool
all_dots [] = true
all_dots (c ∷ s) = not (c == 10) && all_dots s

abbrev pub is_dots : Option Text → Bool
is_dots none = false
is_dots (some t) = not (is_empty t) && all_dots t

-- `_.+\\.sql$`
abbrev pub is_tail : Text → Bool
is_tail [] = false
is_tail (c ∷ s) = c == b'_' && is_dots (stem s)

-- The digits of a name that migrationFilenamePattern matches.
unfoldable pub migration_digits : Text → Option Text
unfolding span_digits stem all_dots
migration_digits name =
    let (digits, rest) = span_digits name in
    if not (is_empty digits) && is_tail rest then some digits else none

-- `err != nil || version <= 0`
abbrev pub positive_version : Option ℤ → Result ℕ
positive_version none = err (foreign 30)
positive_version (some (pos n)) = if n == 0 then err (foreign 30) else ok n
positive_version (some (negsuc n)) = err (foreign 30)

-- `versions[version]`, on the migrations found so far
unfoldable pub has_version : ℕ → List Migration → Bool
has_version version [] = false
has_version version (m ∷ ms) = m.version == version || has_version version ms

abbrev pub refuse_if : Bool → ℕ → Result (Unit {0})
refuse_if true n = err (foreign n)
refuse_if false n = ok tt

abbrev pub or_unreadable : Option Text → Result Text
or_unreadable none = err (wrapped (foreign 32))
or_unreadable (some contents) = ok contents

-- sort.Slice by version: the versions differ, so any sort gives this order.
unfoldable pub insert_sorted : Migration → List Migration → List Migration
insert_sorted m [] = m ∷ []
insert_sorted m (n ∷ ns) = if ltb m.version n.version then m ∷ n ∷ ns else n ∷ insert_sorted m ns

unfoldable pub sort_by_version : List Migration → List Migration
unfolding insert_sorted
sort_by_version [] = []
sort_by_version (m ∷ ms) = insert_sorted m (sort_by_version ms)

module _ (sha256_hex : Text → Text) where
  -- One turn of the loop, on a file whose name matches with these digits.
  unfoldable pub add_migration : Entry → Text → List Migration → Result (List Migration)
  unfolding has_version parse_int
  add_migration entry digits found = do
    version ← positive_version (parse_int digits)
    refuse_if (has_version version found) 31
    contents ← or_unreadable entry.contents
    ok (
        found
        ++ record {
          version = version;
          name = entry.name;
          sql = contents;
          checksum = sha256_hex contents;
        }
          ∷ [])

  abbrev pub consider : Entry → Option Text → List Migration → Result (List Migration)
  consider entry none found = ok found
  consider entry (some digits) found = add_migration entry digits found

  -- `for _, entry := range entries`
  unfoldable pub collect : List Entry → List Migration → Result (List Migration)
  unfolding add_migration migration_digits
  collect [] found = ok found
  collect (entry ∷ rest) found = do
    now ← if entry.is_dir then ok found else consider entry (migration_digits entry.name) found
    collect rest now

  abbrev pub sorted : Result (List Migration) → Result (List Migration)
  sorted (err e) = err e
  sorted (ok found) = ok (sort_by_version found)

  -- `none` is a directory that cannot be read.
  unfoldable pub discover_migrations : Option (List Entry) → Result (List Migration)
  unfolding collect sort_by_version
  discover_migrations none = err (wrapped (foreign 33))
  discover_migrations (some entries) = sorted (collect entries [])
