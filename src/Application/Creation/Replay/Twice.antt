-- ===== src/Application/Creation/Replay/Twice.antt =====
-- Idempotency: the same owner and key give the same link again.
use mathlib.Core.Path.{subst}
use url_shortner.Prelude.{◌≡◌, ◌∙◌, sym, ap, false, Option, none, some, inl, inr, arith}
use url_shortner.Text.{is_empty}
use url_shortner.Errors.{ok}
use url_shortner.Io.Inversion.{bind-ok}
use url_shortner.Net.{UrlLib}
use url_shortner.Domain.Link.{Link}
use url_shortner.Ports.{Context, IdempotencyStore}
use url_shortner.Ports.Laws.{Table, RepositoryLaws, ClockLaws, GeneratorLaws, StoreLaws}
use url_shortner.Application.Creation.{
  CreateGeneratedLink, CreateGeneratedLinkRequest, replayed, or_fresh, active_store, saved,
  create_generated_link, replay_outcome,
}
use url_shortner.Application.Creation.Replay.{fresh_steps, or_fresh_cases, replay_outcome_hit}

module _ {S : Type 0} (base : CreateGeneratedLink S) (store : IdempotencyStore S) (lib : UrlLib)
    {table : S → Table} (laws : RepositoryLaws base.repository table)
    (clock_laws : ClockLaws table base.clock) (generator_laws : GeneratorLaws table base.generator)
    (store_laws : StoreLaws table store) where
  abbrev pub with_store : CreateGeneratedLink S
  with_store = record base { idempotency_store = some store }

  its_laws : (other : IdempotencyStore S) → some store ≡ some other → StoreLaws table other
  its_laws other e = let same : store ≡ other = cc in subst (StoreLaws table) same store_laws

  active_store_keyed :
      (ctx : Context) (request : CreateGeneratedLinkRequest)
      → is_empty request.idempotency_key ≡ false
      → active_store with_store lib ctx request ≡ some store
  unfolding active_store
  active_store_keyed ctx request keyed = rw keyed

  -- A live request whose owner and key are on record returns that link and changes nothing.
  replay_recorded :
      (request : CreateGeneratedLinkRequest) (s : S) (l : Link)
      → is_empty request.idempotency_key ≡ false
      → store_laws.record_of s request.owner_id request.idempotency_key ≡ some l
      → create_generated_link with_store lib none request s ≡ (ok l, s)
  unfolding create_generated_link active_store replayed or_fresh replay_outcome
  replay_recorded request s l keyed held = ground (
    arith,
    store_laws.get_stored request.owner_id request.idempotency_key s l held,
    store_laws.get_keeps none request.owner_id request.idempotency_key s,
  )

  module _ (ctx : Context) (request : CreateGeneratedLinkRequest)
      (keyed : is_empty request.idempotency_key ≡ false) where
    -- What the store holds for the request.
    abbrev held : S → Option Link
    held s = store_laws.record_of s request.owner_id request.idempotency_key

    abbrev active : Option (IdempotencyStore S)
    active = active_store with_store lib ctx request

    held-saved :
        (l : Link) (s : S)
        → (saved with_store lib ctx request active l s).0 ≡ ok tt
        → held (saved with_store lib ctx request active l s).1 ≡ some l
    unfolding saved
    held-saved l s =
        subst
          (λ (o : Option (IdempotencyStore S)).
            (saved with_store lib ctx request o l s).0 ≡ ok tt
            → held (saved with_store lib ctx request o l s).1 ≡ some l)
          (sym (active_store_keyed ctx request keyed))
          (store_laws.save_ok ctx request.owner_id request.idempotency_key l s)

    held-replayed :
        (l : Link) (s : S)
        → (replayed with_store lib ctx request active s).0 ≡ ok (some l)
        → held (replayed with_store lib ctx request active s).1 ≡ some l
    unfolding replayed
    held-replayed l s =
        subst
          (λ (o : Option (IdempotencyStore S)).
            (replayed with_store lib ctx request o s).0 ≡ ok (some l)
            → held (replayed with_store lib ctx request o s).1 ≡ some l)
          (sym (active_store_keyed ctx request keyed))
          λ h. rw (store_laws.get_keeps ctx request.owner_id request.idempotency_key s) (
            store_laws.get_ok ctx request.owner_id request.idempotency_key s l
              (replay_outcome_hit _ h))

    -- A keyed request that succeeds leaves its link on record.
    recorded :
        (s : S) (l : Link)
        → (create_generated_link with_store lib ctx request s).0 ≡ ok l
        → held (create_generated_link with_store lib ctx request s).1 ≡ some l
    unfolding create_generated_link
    recorded s l h =
        let m = replayed with_store lib ctx request active in
        let (found, hit, h1, e1) = bind-ok m (or_fresh with_store lib ctx request) s h in
        elim (or_fresh_cases with_store lib laws clock_laws generator_laws its_laws ctx request
          found (m s).1 l h1) [
            | inl (e, same) ↦ ap held (e1 ∙ same) ∙ held-replayed l s (hit ∙ ap ok e)
            | inr (e, made, same) ↦
                let (d, parsed, looped, (stored, last)) =
                  fresh_steps with_store lib laws clock_laws generator_laws its_laws ctx request
                    (m s).1 l made in
                ap held (e1 ∙ same ∙ last) ∙ held-saved l _ stored
          ]

  -- Idempotency: once a request with a key has succeeded, a live request with the same owner and
  -- key, whatever else it asks for, returns the same link and changes nothing.
  pub create_twice :
      (ctx : Context) (request again : CreateGeneratedLinkRequest) (s : S) (l : Link)
      → is_empty request.idempotency_key ≡ false
      → again.owner_id ≡ request.owner_id
      → again.idempotency_key ≡ request.idempotency_key
      → (create_generated_link with_store lib ctx request s).0 ≡ ok l
      → (let s' = (create_generated_link with_store lib ctx request s).1 in
          create_generated_link with_store lib none again s' ≡ (ok l, s'))
  create_twice ctx request again s l keyed owner key h =
      let s' = (create_generated_link with_store lib ctx request s).1 in
      let keyed_again : is_empty again.idempotency_key ≡ false = rw key keyed in
      let held_again : store_laws.record_of s' again.owner_id again.idempotency_key ≡ some l =
        rw (owner, key) (recorded ctx request keyed s l h) in
      replay_recorded again s' l keyed_again held_again
