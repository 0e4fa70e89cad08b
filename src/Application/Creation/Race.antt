-- ===== src/Application/Creation/Race.antt =====
-- Creations under idempotency keys that several goroutines serve at once: the use case of
-- internal/link/application/create_generated_link.go, taken apart into its calls on the shared stores,
-- in any order.
pub mod Agreement
pub mod Answered
use url_shortner.Prelude.{
  ℕ, zero, suc, List, [], ◌∷◌, ◌≡◌, ◌∙◌, ap, refl, Option, none, some, ◌==◌, if◌then◌else◌, true,
  false, Bool-cases, inl, inr,
}
use url_shortner.Text.{Text}
use url_shortner.Time.{Time}
use url_shortner.Errors.{
  Error, Result, ok, err, is, fail, sentinel, joined, link_already_exists,
  code_generation_exhausted,
}
use url_shortner.Io.{Io, pure, lift, raise, attempt, continue, ◌>>=◌}
use url_shortner.Net.{UrlLib}
use url_shortner.Domain.Destination.{DestinationUrl, new_destination_url}
use url_shortner.Domain.Link.{Link, new_link}
use url_shortner.Ports.{Context}
use url_shortner.Application.Creation.{
  CreateGeneratedLink, CreateGeneratedLinkRequest, active_store, replayed, saved, creation_time,
  inserted, round, retries,
}

-- What one round of the loop comes to: a link, or a code that is taken.
pub data Drawn : Type 0 where
  made : Link → Drawn
  taken : Time → Drawn

abbrev judged : Link → Time → Result (Unit {0}) → Result Drawn
judged link at (ok done) = ok (made link)
judged link at (err e) = if is e link_already_exists then ok (taken at) else err e

module _ {S : Type 0} (c : CreateGeneratedLink S) (lib : UrlLib) (ctx : Context)
    (request : CreateGeneratedLinkRequest) where
  -- One round, up to the answer of Insert.
  unfoldable pub draw : DestinationUrl → Option Time → Io S Drawn
  draw d created = do
    code ← c.generator.generate ctx
    at ← creation_time c lib ctx request created
    link ← lift (new_link code d request.owner_id at request.expires_at)
    answer ← attempt (c.repository.insert ctx link)
    lift (judged link at answer)

  abbrev resume : (Time → Io S Link) → Drawn → Io S Link
  resume retry (made link) = pure link
  resume retry (taken at) = retry at

  assoc :
      {A B C : Type 0} (r : Result A) (f : A → Io S B) (g : B → Io S C) (s : S)
      → (let (x, t) = continue r f s in continue x g t) ≡ continue r (λ a. (f a >>= g)) s
  assoc (ok a) f g s = refl
  assoc (err e) f g s = refl

  inserted-judged :
      (retry : Time → Io S Link) (link : Link) (at : Time) (r : Result (Unit {0})) (s : S)
      → continue (judged link at r) (resume retry) s
        ≡ inserted c lib ctx request (retry at) link r s
  unfolding inserted
  inserted-judged retry link at (ok done) s = refl
  inserted-judged retry link at (err e) s = elim (Bool-cases (is e link_already_exists)) [
    | inl there ↦ rw there refl
    | inr other ↦ rw other refl
  ]

  -- A round of the source is this one, and what follows it.
  draw-round :
      (d : DestinationUrl) (retry : Time → Io S Link) (created : Option Time) (s : S)
      → (draw d created >>= resume retry) s ≡ round c lib ctx request d retry created s
  unfolding draw round
  draw-round d retry created s =
      let last : Time → Link → Io S Drawn = λ at link.
        (attempt (c.repository.insert ctx link) >>= λ answer. lift (judged link at answer)) in
      let built =
        λ (code : Text) (at : Time). new_link code d request.owner_id at request.expires_at in
      let rest : Text → Time → Io S Drawn = λ code at. (lift (built code at) >>= last at) in
      let timed : Text → Io S Drawn =
        λ code. (creation_time c lib ctx request created >>= rest code) in
      let end = λ (at : Time) (link : Link) (t : S).
        inserted-judged retry link at (c.repository.insert ctx link t).0
          (c.repository.insert ctx link t).1 in
      let third = λ (code : Text) (at : Time) (t : S).
        assoc (built code at) (last at) (resume retry) t
        ∙ (λ i. continue (built code at) (λ link t'. end at link t' i) t) in
      let second = λ (code : Text) (t : S).
        (let (r, t') = creation_time c lib ctx request created t in
          assoc r (rest code) (resume retry) t'
          ∙ (λ i. continue r (λ at t''. third code at t'' i) t')) in
      let (r, t) = c.generator.generate ctx s in
      assoc r timed (resume retry) t ∙ (λ i. continue r (λ code t'. second code t' i) t)

-- How far the goroutine of a creation has come: with this many rounds left, or with a link inserted.
pub data Phase : Type 0 where
  asking : Phase
  drawing : DestinationUrl → ℕ → Option Time → Phase
  saving : Link → Phase
  answered : Result Link → Phase

abbrev parsed : Result DestinationUrl → Phase
parsed (ok d) = drawing d retries none
parsed (err e) = answered (err e)

abbrev pub asked : UrlLib → CreateGeneratedLinkRequest → Result (Option Link) → Phase
asked lib request (ok (some link)) = answered (ok link)
asked lib request (ok none) = parsed (new_destination_url lib request.destination)
asked lib request (err e) = answered (err e)

abbrev pub drawn : DestinationUrl → ℕ → Result Drawn → Phase
drawn d k (ok (made link)) = saving link
drawn d (suc k) (ok (taken at)) = drawing d k (some at)
drawn d zero (ok (taken at)) =
    answered (err (joined (sentinel code_generation_exhausted) (sentinel link_already_exists)))
drawn d k (err e) = answered (err e)

abbrev pub kept : Link → Result (Unit {0}) → Phase
kept link (ok done) = answered (ok link)
kept link (err e) = answered (err e)

pub record System (S : Type 0) : Type 0 where
  pub shared : S
  pub phase : ℕ → Phase

module _ {S : Type 0} (c : CreateGeneratedLink S) (lib : UrlLib)
    (request : ℕ → Context × CreateGeneratedLinkRequest) where
  -- The next call of creation `i`.
  unfoldable pub advance : ℕ → Phase → S → Phase × S
  advance i asking s =
      let (ctx, q) = request i in
      let (found, s') = replayed c lib ctx q (active_store c lib ctx q) s in (asked lib q found, s')
  advance i (drawing d k created) s =
      let (ctx, q) = request i in
      let (outcome, s') = draw c lib ctx q d created s in (drawn d k outcome, s')
  advance i (saving link) s =
      let (ctx, q) = request i in
      let (outcome, s') = saved c lib ctx q (active_store c lib ctx q) link s in
      (kept link outcome, s')
  advance i (answered outcome) s = (answered outcome, s)

  -- One call of creation `i`.
  unfoldable pub step : ℕ → System S → System S
  step i x =
      let (p, s) = advance i (x.phase i) x.shared in
      record { shared = s; phase = λ j. if i == j then p else x.phase j }

  unfoldable pub run : List ℕ → System S → System S
  run [] x = x
  run (i ∷ turns) x = run turns (step i x)
