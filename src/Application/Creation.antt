-- ===== src/Application/Creation.antt =====
-- internal/link/application/create_generated_link.go, over any repository, generator, clock and
-- idempotency store.
pub mod Freshness
pub mod Rounds
pub mod Progress
pub mod Replay
pub mod Race
use url_shortner.Prelude.{ℕ, zero, suc, Bool, true, false, Option, none, some, if◌then◌else◌}
use url_shortner.Text.{Text, is_empty}
use url_shortner.Time.{Time}
use url_shortner.Errors.{
  Error, Result, ok, err, sentinel, joined, is, link_already_exists, idempotency_key_not_found,
  code_generation_exhausted,
}
use url_shortner.Io.{Io, pure, raise, lift, attempt, ◌>>=◌, ◌>>◌}
use url_shortner.Net.{UrlLib}
use url_shortner.Domain.Destination.{DestinationUrl, new_destination_url}
use url_shortner.Domain.Link.{Link, new_link}
use url_shortner.Ports.{
  Context, LinkRepository, CodeGenerator, Clock, IdempotencyStore, current_time,
}

pub record CreateGeneratedLinkRequest : Type 0 where
  pub destination : Text
  pub owner_id : Text
  pub expires_at : Option Time
  pub idempotency_key : Text

-- The wired-up use case; no store is the nil interface.
pub record CreateGeneratedLink (S : Type 0) : Type 0 where
  pub repository : LinkRepository S
  pub generator : CodeGenerator S
  pub clock : Clock S
  pub idempotency_store : Option (IdempotencyStore S)

-- `maxCodeGenerationAttempts - 1`, the attempts after the first.
abbrev pub retries : ℕ
retries = 4

-- The outcome of the idempotency lookup: a link to return, a fresh start, or an error.
unfoldable pub replay_outcome : Result Link → Result (Option Link)
replay_outcome (ok link) = ok (some link)
replay_outcome (err e) = if is e idempotency_key_not_found then ok none else err e

module _ {S : Type 0} (c : CreateGeneratedLink S) (lib : UrlLib) (ctx : Context)
    (request : CreateGeneratedLinkRequest) where
  -- `request.IdempotencyKey != "" && c.idempotencyStore != nil`
  unfoldable pub active_store : Option (IdempotencyStore S)
  active_store = if is_empty request.idempotency_key then none else c.idempotency_store

  unfoldable pub replayed : Option (IdempotencyStore S) → Io S (Option Link)
  replayed none = pure none
  replayed (some store) = do
    found ← attempt (store.get ctx request.owner_id request.idempotency_key)
    lift (replay_outcome found)

  unfoldable pub saved : Option (IdempotencyStore S) → Link → Io S (Unit {0})
  saved none link = pure tt
  saved (some store) link = store.save ctx request.owner_id request.idempotency_key link

  -- `if attempt == 0 { createdAt = c.clock.Now() }`
  unfoldable pub creation_time : Option Time → Io S Time
  creation_time none = current_time c.clock
  creation_time (some created_at) = pure created_at

  -- What the loop does with the answer of Insert.
  unfoldable pub inserted : Io S Link → Link → Result (Unit {0}) → Io S Link
  inserted retry link (ok done) = pure link
  inserted retry link (err e) = if is e link_already_exists then retry else raise e

  -- One round of the loop; `retry` is what follows a code that is taken.
  unfoldable pub round : DestinationUrl → (Time → Io S Link) → Option Time → Io S Link
  unfolding creation_time inserted
  round destination retry created = do
    code ← c.generator.generate ctx
    created_at ← creation_time created
    link ← lift (new_link code destination request.owner_id created_at request.expires_at)
    answer ← attempt (c.repository.insert ctx link)
    inserted (retry created_at) link answer

  -- The loop, with the number of rounds that may follow this one.
  unfoldable pub rounds : DestinationUrl → ℕ → Option Time → Io S Link
  unfolding round
  rounds destination zero =
      round destination
        λ _. raise (joined (sentinel code_generation_exhausted) (sentinel link_already_exists))
  rounds destination (suc k) =
      round destination (λ created_at. rounds destination k (some created_at))

  unfoldable pub create_fresh : Io S Link
  unfolding rounds saved active_store
  create_fresh = do
    destination ← lift (new_destination_url lib request.destination)
    link ← rounds destination retries none
    saved active_store link
    pure link

  unfoldable pub or_fresh : Option Link → Io S Link
  or_fresh (some link) = pure link
  or_fresh none = create_fresh

  unfoldable pub create_generated_link : Io S Link
  unfolding replayed active_store
  create_generated_link = do replay ← replayed active_store; or_fresh replay
