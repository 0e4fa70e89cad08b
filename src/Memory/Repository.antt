-- ===== src/Memory/Repository.antt =====
-- internal/link/adapters/memory/repository.go, over a state that holds the map of links.
pub mod Refinement
use url_shortner.Prelude.{ℕ, Bool, true, false, not, Option, none, some, [], GoMap, ◌==◌}
use url_shortner.Prelude.Maps.{lookup}
use url_shortner.Prelude.Maps
use url_shortner.Text.{Text, text_key}
use url_shortner.Errors.{
  Result, ok, fail, fail_if, link_not_found, link_already_exists, version_conflict,
}
use url_shortner.Io.{Io, get, assign, lift, ◌>>=◌, ◌>>◌}
use url_shortner.Domain.Link.{Link}
use url_shortner.Ports.{Context, context_error, LinkRepository}

abbrev pub Links : Type 0
Links = GoMap Text Link

-- NewRepository
abbrev pub new_repository : Links
new_repository = []

-- `_, exists := r.links[code]`
abbrev pub exists : Option Link → Bool
exists none = false
exists (some l) = true

abbrev pub or_not_found : Option Link → Result Link
or_not_found none = fail link_not_found
or_not_found (some l) = ok l

unfoldable pub insert : Context → Link → Io Links (Unit {0})
insert ctx link = do
  lift (context_error ctx)
  links ← get
  lift (fail_if (exists (lookup link.code links)) link_already_exists)
  assign (Maps.insert link.code link)

unfoldable pub find_by_code : Context → Text → Io Links Link
find_by_code ctx code = do
  lift (context_error ctx)
  links ← get
  lift (or_not_found (lookup code links))

unfoldable pub update : Context → Link → ℕ → Io Links (Unit {0})
update ctx link expected_version = do
  lift (context_error ctx)
  links ← get
  stored ← lift (or_not_found (lookup link.code links))
  lift (fail_if (not (stored.version == expected_version)) version_conflict)
  assign (Maps.insert link.code link)

abbrev pub repository : LinkRepository Links
repository = record { insert = insert; find_by_code = find_by_code; update = update }
