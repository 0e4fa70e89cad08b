-- ===== src/Application/Creation/Race/Agreement.antt =====
-- Creations with one owner and one idempotency key agree, in whatever order their calls come.
use mathlib.Core.Path.{subst}
use url_shortner.Prelude.{
  ℕ, zero, suc, List, [], ◌∷◌, ◌≡◌, ◌∙◌, sym, ap, refl, Option, none, some, ◌==◌, Bool-cases, inl,
  inr, arith,
}
use url_shortner.Text.{Text}
use url_shortner.Time.{Time}
use url_shortner.Errors.{Result, ok, err, is, idempotency_key_not_found}
use url_shortner.Io.{Io, continue, ◌>>=◌}
use url_shortner.Net.{UrlLib}
use url_shortner.Domain.Destination.{DestinationUrl, new_destination_url}
use url_shortner.Domain.Link.{Link, new_link}
use url_shortner.Ports.{Context, IdempotencyStore}
use url_shortner.Ports.Laws.{Table, StoreLaws}
use url_shortner.Application.Creation.{
  CreateGeneratedLink, CreateGeneratedLinkRequest, active_store, replay_outcome, replayed, saved,
  creation_time,
}
use url_shortner.Application.Creation.Race.{
  Drawn, made, taken, draw, Phase, asking, drawing, saving, answered, parsed, asked, drawn, kept,
  System, advance, step, run,
}

module _ {S : Type 0} {table : S → Table} {store : IdempotencyStore S}
    (laws : StoreLaws table store) where
  -- Every record of the store stays as it is.
  abbrev pub Stays : S → S → Type 0
  Stays s s' =
      (owner key : Text) (l : Link)
      → laws.record_of s owner key ≡ some l
      → laws.record_of s' owner key ≡ some l

-- No call changes a record that is there.
pub record StaysLaws {S : Type 0} {table : S → Table} (c : CreateGeneratedLink S)
    {store : IdempotencyStore S} (laws : StoreLaws table store) : Type 0 where
  pub save_stays :
      (ctx : Context) (owner key : Text) (l : Link) (s : S)
      → Stays laws s (store.save ctx owner key l s).1
  pub insert_stays :
      (ctx : Context) (l : Link) (s : S) → Stays laws s (c.repository.insert ctx l s).1
  pub generate_stays : (ctx : Context) (s : S) → Stays laws s (c.generator.generate ctx s).1
  pub now_stays : (s : S) → Stays laws s (c.clock.now s).1

module _ {S : Type 0} {table : S → Table} (c : CreateGeneratedLink S) (lib : UrlLib)
    {store : IdempotencyStore S} (laws : StoreLaws table store) (stays : StaysLaws c laws) where
  -- A creation that is answered with a link has it on record.
  Backed : CreateGeneratedLinkRequest → S → Phase → Type 0
  Backed q s (answered (ok l)) = laws.record_of s q.owner_id q.idempotency_key ≡ some l
  Backed q s p = Unit

  Backed-Stays :
      (q : CreateGeneratedLinkRequest) (s s' : S) (p : Phase)
      → Stays laws s s'
      → Backed q s p
      → Backed q s' p
  unfolding Backed
  Backed-Stays q s s' asking h b = tt
  Backed-Stays q s s' (drawing d k t) h b = tt
  Backed-Stays q s s' (saving l) h b = tt
  Backed-Stays q s s' (answered (ok l)) h b = h q.owner_id q.idempotency_key l b
  Backed-Stays q s s' (answered (err e)) h b = tt

  parsed-Backed :
      (q : CreateGeneratedLinkRequest) (s : S) (r : Result DestinationUrl) → Backed q s (parsed r)
  unfolding Backed
  parsed-Backed q s (ok d) = tt
  parsed-Backed q s (err e) = tt

  asked-Backed :
      (ctx : Context) (q : CreateGeneratedLinkRequest) (s : S) (r : Result Link)
      → (store.get ctx q.owner_id q.idempotency_key s).0 ≡ r
      → Backed q s (asked lib q (replay_outcome r))
  unfolding Backed replay_outcome
  asked-Backed ctx q s (ok l) h = laws.get_ok ctx q.owner_id q.idempotency_key s l h
  asked-Backed ctx q s (err e) h = elim (Bool-cases (is e idempotency_key_not_found)) [
    | inl new ↦ rw new (parsed-Backed q s (new_destination_url lib q.destination))
    | inr other ↦ rw other tt
  ]

  drawn-Backed :
      (q : CreateGeneratedLinkRequest) (s : S) (d : DestinationUrl) (k : ℕ) (r : Result Drawn)
      → Backed q s (drawn d k r)
  unfolding Backed
  drawn-Backed q s d k (ok (made l)) = tt
  drawn-Backed q s d zero (ok (taken t)) = tt
  drawn-Backed q s d (suc k) (ok (taken t)) = tt
  drawn-Backed q s d zero (err e) = tt
  drawn-Backed q s d (suc k) (err e) = tt

  kept-Backed :
      (ctx : Context) (q : CreateGeneratedLinkRequest) (l : Link) (s : S) (r : Result (Unit {0}))
      → (store.save ctx q.owner_id q.idempotency_key l s).0 ≡ r
      → Backed q (store.save ctx q.owner_id q.idempotency_key l s).1 (kept l r)
  unfolding Backed
  kept-Backed ctx q l s (ok done) h = laws.save_ok ctx q.owner_id q.idempotency_key l s h
  kept-Backed ctx q l s (err e) h = tt

  -- An action after which every record stays.
  abbrev Safe : {A : Type 0} → Io S A → Type 0
  Safe m = (s : S) → Stays laws s (m s).1

  continue-Safe :
      {A B : Type 0} (r : Result A) (f : A → Io S B) → ((a : A) → Safe (f a)) → Safe (continue r f)
  continue-Safe (ok a) f rest = rest a
  continue-Safe (err e) f rest = λ s owner key l h. h

  then-Safe :
      {A B : Type 0} (m : Io S A) (f : A → Io S B)
      → Safe m
      → ((a : A) → Safe (f a))
      → Safe (m >>= f)
  then-Safe m f safe rest s owner key l h =
      continue-Safe (m s).0 f rest (m s).1 owner key l (safe s owner key l h)

  creation_time-Safe :
      (ctx : Context) (q : CreateGeneratedLinkRequest) (created : Option Time)
      → Safe (creation_time c lib ctx q created)
  unfolding creation_time
  creation_time-Safe ctx q none = stays.now_stays
  creation_time-Safe ctx q (some t) = λ s owner key l h. h

  draw-Safe :
      (ctx : Context) (q : CreateGeneratedLinkRequest) (d : DestinationUrl) (created : Option Time)
      → Safe (draw c lib ctx q d created)
  unfolding draw
  draw-Safe ctx q d created =
      then-Safe (c.generator.generate ctx) _ (stays.generate_stays ctx) λ code.
        then-Safe (creation_time c lib ctx q created) _ (creation_time-Safe ctx q created) λ at.
          continue-Safe (new_link code d q.owner_id at q.expires_at) _
            λ link. stays.insert_stays ctx link

  module _ (request : ℕ → Context × CreateGeneratedLinkRequest)
      (active : (i : ℕ) → active_store c lib (request i).0 (request i).1 ≡ some store) where
    advance-Backed :
        (i : ℕ) (p : Phase) (s : S)
        → Backed (request i).1 s p
        → let (p', s') = advance c lib request i p s in Stays laws s s' × Backed (request i).1 s' p'
    unfolding advance replayed saved
    advance-Backed i asking s b =
        let (ctx, q) = request i in
        let same = laws.get_keeps ctx q.owner_id q.idempotency_key s in
        rw (active i) (
          (λ owner key l h. ap (λ (t : S). laws.record_of t owner key) same ∙ h),
          subst
              (λ (t : S).
                Backed q t
                  (asked lib q (replay_outcome (store.get ctx q.owner_id q.idempotency_key s).0)))
              (sym same)
              (asked-Backed ctx q s (store.get ctx q.owner_id q.idempotency_key s).0 refl),
        )
    advance-Backed i (drawing d k created) s b =
        let (ctx, q) = request i in
        let (outcome, s') = draw c lib ctx q d created s in
        (draw-Safe ctx q d created s, drawn-Backed q s' d k outcome)
    advance-Backed i (saving l) s b =
        let (ctx, q) = request i in
        rw (active i) (
          stays.save_stays ctx q.owner_id q.idempotency_key l s,
          kept-Backed ctx q l s (store.save ctx q.owner_id q.idempotency_key l s).0 refl,
        )
    advance-Backed i (answered r) s b = ((λ owner key l h. h), b)

    EachBacked : System S → Type 0
    EachBacked x = (j : ℕ) → Backed (request j).1 x.shared (x.phase j)

    step-EachBacked : (i : ℕ) (x : System S) → EachBacked x → EachBacked (step c lib request i x)
    unfolding step EachBacked
    step-EachBacked i x b j =
        let (safe, mine) = advance-Backed i (x.phase i) x.shared (b i) in
        let (p', s') = advance c lib request i (x.phase i) x.shared in
        elim (Bool-cases (i == j)) [
          | inl same ↦
              let number : i ≡ j = ground arith in
              rw same (subst (λ (k : ℕ). Backed (request k).1 s' p') number mine)
          | inr other ↦ rw other (Backed-Stays (request j).1 x.shared s' (x.phase j) safe (b j))
        ]

    run-EachBacked :
        (turns : List ℕ) (x : System S) → EachBacked x → EachBacked (run c lib request turns x)
    unfolding run
    run-EachBacked [] x b = b
    run-EachBacked (i ∷ turns) x b =
        run-EachBacked turns (step c lib request i x) (step-EachBacked i x b)

    -- Whatever the order of the calls of creations that have not begun, each with an idempotency
    -- key, over a store whose records no call changes, any two of them with one owner and one key
    -- that are answered with a link are answered with the same link.
    pub run_agrees :
        (turns : List ℕ) (x : System S) (i j : ℕ) (l l' : Link)
        → ((k : ℕ) → x.phase k ≡ asking)
        → (request i).1.owner_id ≡ (request j).1.owner_id
        → (request i).1.idempotency_key ≡ (request j).1.idempotency_key
        → (run c lib request turns x).phase i ≡ answered (ok l)
        → (run c lib request turns x).phase j ≡ answered (ok l')
        → l ≡ l'
    unfolding Backed EachBacked
    run_agrees turns x i j l l' asks owner key done done' =
        let final = run c lib request turns x in
        let s = final.shared in
        let backed =
          run-EachBacked turns x λ k. subst (Backed (request k).1 x.shared) (sym (asks k)) tt in
        let first : laws.record_of s (request i).1.owner_id (request i).1.idempotency_key ≡ some l =
          subst (Backed (request i).1 s) done (backed i) in
        let second : laws.record_of s (request j).1.owner_id (request j).1.idempotency_key
            ≡ some l' =
          subst (Backed (request j).1 s) done' (backed j) in
        let met : some l ≡ some l' =
          sym first ∙ (λ n. laws.record_of s (owner n) (key n)) ∙ second in
        cc
