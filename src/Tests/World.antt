-- ===== src/Tests/World.antt =====
-- Concrete parameters for the examples: a URL library that knows one site, and a state with the
-- in-memory adapters, a counter for a clock and a counter for a generator of codes.
use url_shortner.Prelude.{
  ℕ, ◌+◌, ◌≡◌, ◌≢◌, refl, ap, false, Option, none, some, [], ◌∷◌, ◌++◌, arith, if◌then◌else◌,
}
use url_shortner.Text.{
  Text, codes, text_eq, trim_space, trim_left, trim_right, is_space, to_lower, to_lower_rune,
}
use url_shortner.Time.{Time}
use url_shortner.Errors.{ok}
use url_shortner.Io.{Io}
use url_shortner.Net.{Url, UrlLib, UrlLaws}
use url_shortner.Domain.Status.{active}
use url_shortner.Domain.Destination.{DestinationUrl}
use url_shortner.Domain.Link.{Link}
use url_shortner.Ports.{LinkRepository, Clock, CodeGenerator, IdempotencyStore}
use url_shortner.Ports.Laws.{Table, RepositoryLaws, ClockLaws, GeneratorLaws, StoreLaws}
use url_shortner.Memory.Repository.{Links, insert, find_by_code, update}
use url_shortner.Memory.Repository.Refinement.{repository_laws}
use url_shortner.Memory.Repository.Refinement
use url_shortner.Memory.Idempotency.{Records, SameLink, get_record, save_record}
use url_shortner.Memory.Idempotency.Records.{
  SoundSame, record_of, get_ok, get_keeps, get_stored, save_ok,
}

abbrev pub site : Text
site = codes "https://go.dev/"

abbrev pub site_url : Url
site_url = record {
  scheme = codes "https";
  host = codes "go.dev";
  raw_query = [];
  fragment = [];
  rest = codes "/";
}

abbrev parse_site : Text → Option Url
parse_site t = if text_eq t site then some site_url else none

abbrev pub lib : UrlLib
lib = record {
  parse_request_uri = parse_site;
  parse = parse_site;
  to_string = λ u. u.scheme ++ (codes "://" ++ (u.host ++ u.rest));
  lower_beyond = λ c. c;
}

parsed_site : (t : Text) (u : Url) → parse_site t ≡ some u → u ≡ site_url
parsed_site t u h = ground arith

scheme-append : (s t : Text) → s ≢ [] → s ++ t ≢ []
scheme-append [] t there e = there refl
scheme-append (c ∷ s) t there e = ground arith

pub lib_laws : UrlLaws lib
unfolding trim_space trim_left trim_right is_space to_lower to_lower_rune text_eq
lib_laws = record {
  string_scheme = λ u there. scheme-append u.scheme _ there;
  string_trimmed = λ raw u h. rw (parsed_site (trim_space raw) u h) refl;
  reparse = λ raw u h. rw (parsed_site (trim_space raw) u h) (site_url, refl, refl, refl, refl);
  lower_final = λ c le. ground arith;
}

abbrev pub home : DestinationUrl
home = record { value = site }

abbrev pub elsewhere : DestinationUrl
elsewhere = record { value = codes "https://pkg.go.dev/" }

abbrev pub link : Link
link = record {
  code = codes "0";
  destination = elsewhere;
  owner_id = codes "ann";
  status = active;
  created_at = 3;
  updated_at = 3;
  expires_at = none;
  version = 1;
}

-- The state of a running service.
pub record World : Type 0 where
  pub links : Links
  pub records : Records
  pub time : Time
  pub drawn : ℕ

abbrev pub world : World
world = record { links = (codes "0", link) ∷ []; records = []; time = 5; drawn = 0 }

abbrev on_links : {A : Type 0} → Io Links A → Io World A
on_links m w = let (r, links) = m w.links in (r, record w { links = links })

abbrev on_records : {A : Type 0} → Io Records A → Io World A
on_records m w = let (r, records) = m w.records in (r, record w { records = records })

abbrev pub links : LinkRepository World
links = record {
  insert = λ ctx l. on_links (insert ctx l);
  find_by_code = λ ctx code. on_links (find_by_code ctx code);
  update = λ ctx l expected. on_links (update ctx l expected);
}

abbrev pub table : World → Table
table w = Refinement.table w.links

pub links_laws : RepositoryLaws links table
links_laws = record {
  find_keeps = λ ctx code w. repository_laws.find_keeps ctx code w.links;
  find_ok = λ ctx code w. repository_laws.find_ok ctx code w.links;
  insert_ok = λ ctx l w. repository_laws.insert_ok ctx l w.links;
  insert_err = λ ctx l w. repository_laws.insert_err ctx l w.links;
  update_ok = λ ctx l expected w. repository_laws.update_ok ctx l expected w.links;
  update_err = λ ctx l expected w. repository_laws.update_err ctx l expected w.links;
}

-- A clock that ticks at each reading.
abbrev pub clock : Clock World
clock = record { now = λ w. (w.time, record w { time = w.time + 1 }) }

pub clock_laws : ClockLaws table clock
clock_laws = record { now_keeps = λ w. refl }

abbrev pub generator : CodeGenerator World
generator = record {
  generate = λ ctx w. (ok ((48 + w.drawn) ∷ []), record w { drawn = w.drawn + 1 });
}

pub generator_laws : GeneratorLaws table generator
generator_laws = record { generate_keeps = λ ctx w. refl }

-- Two links that were made at different times are never the same pointer.
abbrev pub never : SameLink
never a b = false

pub never_sound : SoundSame never
never_sound a b h = absurd (ground arith)

abbrev pub store : IdempotencyStore World
store = record {
  get = λ ctx owner key. on_records (get_record ctx owner key);
  save = λ ctx owner key l. on_records (save_record never ctx owner key l);
}

unfoldable pub store_laws : StoreLaws table store
store_laws = record {
  record_of = λ w. record_of w.records;
  get_keeps = λ ctx owner key w.
      ap (λ (r : Records). record w { records = r }) (get_keeps ctx owner key w.records);
  get_ok = λ ctx owner key w. get_ok ctx owner key w.records;
  get_stored = λ owner key w. get_stored owner key w.records;
  save_keeps = λ ctx owner key l w. refl;
  save_ok = λ ctx owner key l w. save_ok never ctx owner key l w.records never_sound;
}
