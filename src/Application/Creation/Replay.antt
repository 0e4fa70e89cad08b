-- ===== src/Application/Creation/Replay.antt =====
-- What a create request returns and writes, with and without an idempotency key.
pub mod Twice
use url_shortner.Prelude.{◌≡◌, ◌∙◌, sym, ap, refl, Option, none, some, ◌⊎◌, inl, inr, arith}
use url_shortner.Errors.{Result, ok, err}
use url_shortner.Io.{pure, lift, ◌>>=◌, ◌>>◌}
use url_shortner.Io.Inversion.{bind-ok}
use url_shortner.Net.{UrlLib}
use url_shortner.Domain.Destination.{DestinationUrl, new_destination_url}
use url_shortner.Domain.Link.{Link}
use url_shortner.Ports.{Context, IdempotencyStore}
use url_shortner.Ports.Laws.{Table, written, RepositoryLaws, ClockLaws, GeneratorLaws, StoreLaws}
use url_shortner.Application.Creation.{
  CreateGeneratedLink, CreateGeneratedLinkRequest, retries, rounds, replay_outcome, create_fresh,
  replayed, or_fresh, active_store, saved, create_generated_link,
}
use url_shortner.Application.Creation.Freshness.{MadeOf, rounds-Fresh, rounds_ok}

replay_outcome_hit : (r : Result Link) {l : Link} → replay_outcome r ≡ ok (some l) → r ≡ ok l
unfolding replay_outcome
replay_outcome_hit (ok k) h = ground arith
replay_outcome_hit (err e) h = ground arith

module _ {S : Type 0} (c : CreateGeneratedLink S) (lib : UrlLib) {table : S → Table}
    (laws : RepositoryLaws c.repository table) (clock_laws : ClockLaws table c.clock)
    (generator_laws : GeneratorLaws table c.generator)
    (store_laws : (store : IdempotencyStore S)
      → c.idempotency_store ≡ some store
      → StoreLaws table store)
    (ctx : Context) (request : CreateGeneratedLinkRequest) where
  active_laws :
      (store : IdempotencyStore S)
      → active_store c lib ctx request ≡ some store
      → StoreLaws table store
  unfolding active_store
  active_laws store e = store_laws store (ground arith)

  replayed_keeps :
      (o : Option (IdempotencyStore S)) (s : S)
      → active_store c lib ctx request ≡ o
      → table (replayed c lib ctx request o s).1 ≡ table s
  unfolding replayed
  replayed_keeps none s e = refl
  replayed_keeps (some store) s e =
      ap table ((active_laws store e).get_keeps ctx request.owner_id request.idempotency_key s)

  saved_keeps :
      (o : Option (IdempotencyStore S)) (l : Link) (s : S)
      → active_store c lib ctx request ≡ o
      → table (saved c lib ctx request o l s).1 ≡ table s
  unfolding saved
  saved_keeps none l s e = refl
  saved_keeps (some store) l s e =
      (active_laws store e).save_keeps ctx request.owner_id request.idempotency_key l s

  -- The link that an earlier request with this owner and key left.
  abbrev pub Replayed : S → Link → Type 0
  Replayed s l =
      (store : IdempotencyStore S) × (active_store c lib ctx request ≡ some store)
      × ((store.get ctx request.owner_id request.idempotency_key s).0 ≡ ok l)

  replayed_hit :
      (o : Option (IdempotencyStore S)) (s : S) (l : Link)
      → active_store c lib ctx request ≡ o
      → (replayed c lib ctx request o s).0 ≡ ok (some l)
      → Replayed s l
  unfolding replayed
  replayed_hit none s l e h = absurd (ground arith)
  replayed_hit (some store) s l e h = (store, e, replay_outcome_hit _ h)

  -- A new link, made of the parsed destination under a code that was free.
  abbrev pub Created : S → S → Link → Type 0
  Created s s' l =
      (d : DestinationUrl) × (new_destination_url lib request.destination ≡ ok d)
      × MadeOf c lib laws clock_laws generator_laws ctx request d l
      × (table s l.code ≡ none)
      × (table s' ≡ written l (table s))

  -- The steps of a fresh creation that succeeds.
  fresh_steps :
      (s : S) (l : Link)
      → (create_fresh c lib ctx request s).0 ≡ ok l
      → (d : DestinationUrl) × (new_destination_url lib request.destination ≡ ok d)
        × ((rounds c lib ctx request d retries none s).0 ≡ ok l)
        × (let made = (rounds c lib ctx request d retries none s).1 in
            let store = active_store c lib ctx request in
            ((saved c lib ctx request store l made).0 ≡ ok tt)
            × ((create_fresh c lib ctx request s).1 ≡ (saved c lib ctx request store l made).1))
  unfolding create_fresh
  fresh_steps s l h =
      let store = active_store c lib ctx request in
      let finish = λ (k : Link). saved c lib ctx request store k >> pure k in
      let (d, parsed, h1, e1) =
        bind-ok (lift (new_destination_url lib request.destination))
          (λ d. rounds c lib ctx request d retries none >>= finish) s h in
      let (k, looped, h2, e2) = bind-ok (rounds c lib ctx request d retries none) finish s h1 in
      let made = (rounds c lib ctx request d retries none s).1 in
      let (done, stored, h3, e3) =
        bind-ok (saved c lib ctx request store k) (λ _. pure k) made h2 in
      let same : k ≡ l = cc in
      (
        d,
        parsed,
        looped ∙ ap ok same,
        (
          ap (λ (x : Link). (saved c lib ctx request store x made).0) (sym same) ∙ stored,
          e1 ∙ e2 ∙ e3 ∙ ap (λ (x : Link). (saved c lib ctx request store x made).1) same,
        ),
      )

  fresh_Created :
      (s : S) (l : Link)
      → (create_fresh c lib ctx request s).0 ≡ ok l
      → Created s (create_fresh c lib ctx request s).1 l
  fresh_Created s l h =
      let (d, parsed, looped, kept) = fresh_steps s l h in
      let run = rounds c lib ctx request d retries none s in
      let (made, free, table_made) =
        rounds_ok c lib laws clock_laws generator_laws ctx request d s run l
          (rounds-Fresh c lib laws clock_laws generator_laws ctx request d retries none s) looped in
      (
        d,
        parsed,
        made,
        free,
        ap table kept.1 ∙ saved_keeps (active_store c lib ctx request) l run.1 refl ∙ table_made,
      )

  or_fresh_cases :
      (found : Option Link) (s : S) (l : Link)
      → (or_fresh c lib ctx request found s).0 ≡ ok l
      → ((found ≡ some l) × ((or_fresh c lib ctx request found s).1 ≡ s))
        ⊎ ((found ≡ none)
            × ((create_fresh c lib ctx request s).0 ≡ ok l)
            × ((or_fresh c lib ctx request found s).1 ≡ (create_fresh c lib ctx request s).1))
  unfolding or_fresh
  or_fresh_cases none s l h = inr (refl, h, refl)
  or_fresh_cases (some k) s l h = inl (cc, refl)

  -- A create request that succeeds either returns the link that the store holds for its owner and
  -- key, and changes no link; or it returns a new link, made of its parsed destination under a
  -- code that no link had, and the table differs by that link alone.
  pub create_ok :
      (s : S) (l : Link)
      → (create_generated_link c lib ctx request s).0 ≡ ok l
      → (Replayed s l × (table (create_generated_link c lib ctx request s).1 ≡ table s))
        ⊎ Created s (create_generated_link c lib ctx request s).1 l
  unfolding create_generated_link
  create_ok s l h =
      let store = active_store c lib ctx request in
      let m = replayed c lib ctx request store in
      let kept = replayed_keeps store s refl in
      let (found, hit, h1, e1) = bind-ok m (or_fresh c lib ctx request) s h in
      elim (or_fresh_cases found (m s).1 l h1) [
        | inl (e, same) ↦
            inl (replayed_hit store s l refl (hit ∙ ap ok e), ap table (e1 ∙ same) ∙ kept)
        | inr (e, made, same) ↦
            let (d, parsed, shape, free, written_table) = fresh_Created (m s).1 l made in
            inr (
              d,
              parsed,
              shape,
              (λ i. sym kept i l.code) ∙ free,
              ap table (e1 ∙ same) ∙ written_table ∙ ap (written l) kept,
            )
      ]
