-- ===== src/Application/Creation/Progress.antt =====
-- How a creation comes to an end: with the first free code of the five that it may draw, or with the
-- error that there is none.
use url_shortner.Prelude.{ℕ, ◌+◌, ◌≤◌, ◌≡◌, ◌∙◌, ap, refl, none, true}
use url_shortner.Text.{Text, is_empty}
use url_shortner.Time.{Time}
use url_shortner.Errors.{
  link_already_exists, Result, ok, err, sentinel, joined, code_generation_exhausted,
}
use url_shortner.Io.{continue, pure, ◌>>◌}
use url_shortner.Net.{UrlLib}
use url_shortner.Domain.Destination.{DestinationUrl, new_destination_url}
use url_shortner.Domain.Link.{Link}
use url_shortner.Ports.Laws.{InsertsFree, Table, RepositoryLaws, ClockLaws, GeneratorLaws}
use url_shortner.Application.Creation.{
  CreateGeneratedLink, CreateGeneratedLinkRequest, rounds, creation_time, retries,
  create_generated_link, replayed, active_store, or_fresh, create_fresh, saved,
}
use url_shortner.Application.Creation.Rounds.{
  StreamLaws, Makeable, Taken, rounds_first_free, rounds_exhausted,
}

module _ {S : Type 0} (c : CreateGeneratedLink S) (lib : UrlLib) {table : S → Table}
    (laws : RepositoryLaws c.repository table) (clock_laws : ClockLaws table c.clock)
    (generator_laws : GeneratorLaws table c.generator) (inserts : InsertsFree c.repository table)
    (code : ℕ → Text) (count : S → ℕ) (stream : StreamLaws c code count)
    (request : CreateGeneratedLinkRequest) (d : DestinationUrl) where
  -- Without a store the loop's answer is that of the creation.
  unsaved :
      (r : Result Link) (s : S)
      → (continue r (λ link. (saved c lib none request none link >> pure link)) s).0 ≡ r
  unfolding saved
  unsaved (ok l) s = refl
  unsaved (err e) s = refl

  module _ (s : S) (keyless : is_empty request.idempotency_key ≡ true)
      (parsed : new_destination_url lib request.destination ≡ ok d) where
    -- The clock reading of a creation.
    abbrev pub read_at : Time
    read_at = (c.clock.now (c.generator.generate none s).1).0

    no_store : active_store c lib none request ≡ none
    unfolding active_store
    no_store = rw keyless refl

    create_rounds :
        (create_generated_link c lib none request s).0
        ≡ (rounds c lib none request d retries none s).0
    unfolding create_generated_link replayed or_fresh create_fresh
    create_rounds =
        let r = rounds c lib none request d retries none s in
        rw (no_store, parsed)
          (ap
              (λ store.
                (continue r.0 (λ link. (saved c lib none request store link >> pure link)) r.1).0)
              no_store
            ∙ unsaved r.0 r.1)

    -- A live creation without an idempotency key, of a valid destination, whose generator gives
    -- one code after another that each make a link and keep their form, succeeds with the first
    -- code that is free, if that is one of the first five and the repository can be reached.
    pub create_first_free :
        (j : ℕ)
        → j ≤ 4
        → Makeable c lib laws clock_laws generator_laws inserts code count stream request d read_at
        → Taken c lib laws clock_laws generator_laws inserts code count stream request d j s
        → table s (code (count s + j)) ≡ none
        → (l : Link) × ((create_generated_link c lib none request s).0 ≡ ok l)
          × (l.code ≡ code (count s + j))
    unfolding creation_time
    create_first_free j low makes taken free =
        let (l, done, named) =
          rounds_first_free c lib laws clock_laws generator_laws inserts code count stream request d
            j retries none read_at s low refl makes taken free in
        (l, create_rounds ∙ done, named)

    -- A live creation without an idempotency key, of a valid destination, whose generator gives
    -- one code after another that each make a link and keep their form, fails, if each of the
    -- first five codes is taken and the repository can be reached, with the error that joins the
    -- exhausted attempts to the existing link.
    pub create_exhausted :
        Makeable c lib laws clock_laws generator_laws inserts code count stream request d read_at
        → Taken c lib laws clock_laws generator_laws inserts code count stream request d 5 s
        → (create_generated_link c lib none request s).0
          ≡ err (joined (sentinel code_generation_exhausted) (sentinel link_already_exists))
    unfolding creation_time
    create_exhausted makes taken =
        create_rounds
        ∙ rounds_exhausted c lib laws clock_laws generator_laws inserts code count stream request d
            retries none read_at s refl makes taken
