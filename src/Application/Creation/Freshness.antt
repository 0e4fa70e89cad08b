-- ===== src/Application/Creation/Freshness.antt =====
-- A new link takes a code that no link had, and disturbs no other link.
use mathlib.Core.Path.{subst}
use url_shortner.Prelude.{
  ℕ, zero, Bool-cases, suc, ◌≡◌, ◌∙◌, sym, ap, refl, Option, none, some, inl, inr, arith,
}
use url_shortner.Text.{Text}
use url_shortner.Time.{Time}
use url_shortner.Errors.{Error, is, link_already_exists, Result, ok, err}
use url_shortner.Io.{Io, continue}
use url_shortner.Net.{UrlLib}
use url_shortner.Domain.Destination.{DestinationUrl}
use url_shortner.Domain.Link.{Link, new_link}
use url_shortner.Ports.{Context}
use url_shortner.Ports.Laws.{Table, written, RepositoryLaws, ClockLaws, GeneratorLaws}
use url_shortner.Application.Creation.{
  CreateGeneratedLink, CreateGeneratedLinkRequest, round, rounds, inserted, creation_time,
}

module _ {S : Type 0} (c : CreateGeneratedLink S) (lib : UrlLib) {table : S → Table}
    (laws : RepositoryLaws c.repository table) (clock_laws : ClockLaws table c.clock)
    (generator_laws : GeneratorLaws table c.generator) (ctx : Context)
    (request : CreateGeneratedLinkRequest) where
  -- The link that a request makes of a code and a clock reading.
  abbrev pub MadeOf : DestinationUrl → Link → Type 0
  MadeOf d l =
      (code : Text) × (created_at : Time) × (new_link code d request.owner_id created_at
          request.expires_at
        ≡ ok l)

  -- An outcome of the loop: a new link on a free code, or an error and the old table.
  abbrev pub Fresh : DestinationUrl → S → Result Link × S → Type 0
  Fresh d s (ok l, s') = MadeOf d l × (table s l.code ≡ none) × (table s' ≡ written l (table s))
  Fresh d s (err e, s') = table s' ≡ table s

  creation_time_keeps :
      (created : Option Time) (s : S)
      → table (creation_time c lib ctx request created s).1 ≡ table s
  unfolding creation_time
  creation_time_keeps none s = clock_laws.now_keeps s
  creation_time_keeps (some t) s = refl

  Fresh-back :
      (d : DestinationUrl) (s s' : S) (r : Result Link × S)
      → table s' ≡ table s
      → Fresh d s' r
      → Fresh d s r
  Fresh-back d s s' (ok l, t) e (made, free, kept) =
      (made, (λ i. sym e i l.code) ∙ free, kept ∙ ap (written l) e)
  Fresh-back d s s' (err x, t) e kept = kept ∙ e

  continue-Fresh :
      {A : Type 0} (d : DestinationUrl) (r : Result A) (f : A → Io S Link) (s s' : S)
      → table s' ≡ table s
      → ((a : A) → r ≡ ok a → Fresh d s' (f a s'))
      → Fresh d s (continue r f s')
  continue-Fresh d (ok a) f s s' e k = Fresh-back d s s' (f a s') e (k a refl)
  continue-Fresh d (err x) f s s' e k = e

  -- The end of a round, from the answer of Insert on.
  answered_Fresh :
      (d : DestinationUrl) (retry : Io S Link) (l : Link) (r : Result (Unit {0})) (s s' : S)
      → MadeOf d l
      → (r ≡ ok tt → (table s l.code ≡ none) × (table s' ≡ written l (table s)))
      → ((e : Error) → r ≡ err e → table s' ≡ table s)
      → ((t : S) → Fresh d t (retry t))
      → Fresh d s (inserted c lib ctx request retry l r s')
  unfolding inserted
  answered_Fresh d retry l (ok done) s s' made won lost again = (made, (won refl).0, (won refl).1)
  answered_Fresh d retry l (err e) s s' made won lost again =
      elim (Bool-cases (is e link_already_exists)) [
        | inl taken ↦ rw taken (Fresh-back d s s' (retry s') (lost e refl) (again s'))
        | inr other ↦ rw other (lost e refl)
      ]

  round-Fresh :
      (d : DestinationUrl) (retry : Time → Io S Link) (created : Option Time) (s : S)
      → ((t : Time) (s : S) → Fresh d s (retry t s))
      → Fresh d s (round c lib ctx request d retry created s)
  unfolding round
  round-Fresh d retry created s again =
      let generated = c.generator.generate ctx s in
      continue-Fresh d generated.0 _ s generated.1 (generator_laws.generate_keeps ctx s) λ code _.
        let read = creation_time c lib ctx request created generated.1 in
        continue-Fresh d read.0 _ generated.1 read.1 (creation_time_keeps created generated.1)
          λ at _.
            continue-Fresh d (new_link code d request.owner_id at request.expires_at) _ read.1
              read.1 refl
              λ l made.
                let answer = c.repository.insert ctx l read.1 in
                answered_Fresh d (retry at) l answer.0 read.1 answer.1 (code, at, made)
                  (laws.insert_ok ctx l read.1) (laws.insert_err ctx l read.1) (again at)

  pub rounds-Fresh :
      (d : DestinationUrl) (k : ℕ) (created : Option Time) (s : S)
      → Fresh d s (rounds c lib ctx request d k created s)
  unfolding rounds
  rounds-Fresh d zero created s = round-Fresh d _ created s (λ t s'. refl)
  rounds-Fresh d (suc k) created s =
      round-Fresh d _ created s (λ t s'. rounds-Fresh d k (some t) s')

  -- The outcome of the whole loop, spelled out.
  pub rounds_ok :
      (d : DestinationUrl) (s : S) (r : Result Link × S) (l : Link)
      → Fresh d s r
      → r.0 ≡ ok l
      → MadeOf d l × (table s l.code ≡ none) × (table r.1 ≡ written l (table s))
  rounds_ok d s (ok k, s') l (made, free, kept) h =
      let same : k ≡ l = cc in
      subst (λ (x : Link). MadeOf d x × (table s x.code ≡ none) × (table s' ≡ written x (table s)))
        same (made, free, kept)
  rounds_ok d s (err e, s') l fresh h = absurd (ground arith)
