-- ===== src/Postgres/Repository/RoundTrip.antt =====
-- What the repository reads of what it wrote.
use url_shortner.Prelude.{ℕ, ◌≡◌, ◌∙◌, refl, some, arith}
use url_shortner.Text.{text_eq_refl}
use url_shortner.Errors.{ok}
use url_shortner.Net.{UrlLib}
use url_shortner.Domain.Status.{to_string}
use url_shortner.Domain.Status.Transitions.{parse_link_status_iff}
use url_shortner.Domain.Destination.{new_destination_url}
use url_shortner.Domain.Link.{Link}
use url_shortner.Domain.Link.Validity.{IsValid, rehydrate_link_iff}
use url_shortner.Ports.{Context}
use url_shortner.Postgres.{LinkRow, done, Pool}
use url_shortner.Postgres.Laws.{PoolLaws, to_microsecond, kept}
use url_shortner.Postgres.Repository.{row_of, scan_link, find_result, insert, find_by_code}
use mathlib.Core.Option

-- The link with its times cut down to the microsecond.
abbrev pub cut : Link → Link
cut l = record l {
  created_at = to_microsecond l.created_at;
  updated_at = to_microsecond l.updated_at;
  expires_at = Option.map to_microsecond l.expires_at;
}

module _ (lib : UrlLib) where
  scan_link-kept :
      (l : Link)
      → new_destination_url lib l.destination.value ≡ ok l.destination
      → IsValid (cut l)
      → scan_link lib (kept (row_of l)) ≡ ok (cut l)
  unfolding scan_link
  scan_link-kept l normal v =
      let status = (parse_link_status_iff (to_string l.status) l.status).1 (v.status_named, refl) in
      rw (normal, status) ((rehydrate_link_iff (cut l)).1 v)

  module _ {S : Type 0} (pool : Pool S) (laws : PoolLaws pool) where
    -- A link that was inserted is read back, once the database answers, with its times cut down to
    -- the microsecond, if NewDestinationURL keeps its destination and the link with those times is
    -- valid.
    pub find_by_code-insert :
        (ctx later : Context) (l : Link) (s : S) (n : ℕ) (row : LinkRow)
        → new_destination_url lib l.destination.value ≡ ok l.destination
        → IsValid (cut l)
        → (pool.insert_link ctx (row_of l) s).0 ≡ done n
        → (let s' = (insert pool lib ctx l s).1 in (pool.select_link later l.code s').0 ≡ done row)
        → (find_by_code pool lib later l.code (insert pool lib ctx l s).1).0 ≡ ok (cut l)
    unfolding insert find_by_code find_result
    find_by_code-insert ctx later l s n row normal v inserted selected =
        let (free, rows) = laws.insert_link_done ctx (row_of l) s n inserted in
        let s' = (pool.insert_link ctx (row_of l) s).1 in
        let there : laws.links s' l.code ≡ some (kept (row_of l)) =
          rows l.code ∙ rw (text_eq_refl l.code) refl in
        let same : row ≡ kept (row_of l) =
          ground (arith, laws.select_link_done later l.code s' row selected, there) in
        rw (selected, same) (scan_link-kept l normal v)
