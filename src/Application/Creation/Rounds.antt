-- ===== src/Application/Creation/Rounds.antt =====
-- The loop of a creation, round by round, over a generator that gives one code after another.
use url_shortner.Prelude.{
  ℕ, zero, suc, ◌+◌, ◌<◌, ◌≤◌, ◌≡◌, ◌∙◌, sym, ap, refl, Option, none, some, arith,
}
use url_shortner.Text.{Text}
use url_shortner.Time.{Time}
use url_shortner.Errors.{link_already_exists, ok, err, sentinel, joined, code_generation_exhausted}
use url_shortner.Io.{Io, lift, raise}
use url_shortner.Io.Inversion.{bind_of_ok}
use url_shortner.Net.{UrlLib}
use url_shortner.Domain.Destination.{DestinationUrl}
use url_shortner.Domain.Link.{Link, new_link}
use url_shortner.Ports.Laws.{InsertsFree, Table, RepositoryLaws, ClockLaws, GeneratorLaws}
use url_shortner.Application.Creation.{
  CreateGeneratedLink, CreateGeneratedLinkRequest, round, rounds, inserted, creation_time,
}

-- A generator that gives one code after another, and a count of the codes that it gave.
pub record StreamLaws {S : Type 0} (c : CreateGeneratedLink S) (code : ℕ → Text) (count : S → ℕ)
    : Type 0 where
  pub draws : (s : S) → (c.generator.generate none s).0 ≡ ok (code (count s))
  pub drawn : (s : S) → count (c.generator.generate none s).1 ≡ count s + 1
  pub insert_count : (l : Link) (s : S) → count (c.repository.insert none l s).1 ≡ count s
  pub now_count : (s : S) → count (c.clock.now s).1 ≡ count s

module _ {S : Type 0} (c : CreateGeneratedLink S) (lib : UrlLib) {table : S → Table}
    (laws : RepositoryLaws c.repository table) (clock_laws : ClockLaws table c.clock)
    (generator_laws : GeneratorLaws table c.generator) (inserts : InsertsFree c.repository table)
    (code : ℕ → Text) (count : S → ℕ) (stream : StreamLaws c code count)
    (request : CreateGeneratedLinkRequest) (d : DestinationUrl) where
  -- The state after a code is drawn and the clock is read, where it is.
  abbrev ready_at : Option Time → S → S
  ready_at created s = (creation_time c lib none request created (c.generator.generate none s).1).1

  ready_table : (created : Option Time) (s : S) → table (ready_at created s) ≡ table s
  unfolding creation_time
  ready_table none s =
      clock_laws.now_keeps (c.generator.generate none s).1 ∙ generator_laws.generate_keeps none s
  ready_table (some t) s = generator_laws.generate_keeps none s

  ready_count : (created : Option Time) (s : S) → count (ready_at created s) ≡ count s + 1
  unfolding creation_time
  ready_count none s = stream.now_count (c.generator.generate none s).1 ∙ stream.drawn s
  ready_count (some t) s = stream.drawn s

  -- One round is the insertion of a link under the next code, and what follows it.
  round_lem :
      (retry : Time → Io S Link) (created : Option Time) (at : Time) (l : Link) (s : S)
      → (creation_time c lib none request created (c.generator.generate none s).1).0 ≡ ok at
      → new_link (code (count s)) d request.owner_id at request.expires_at ≡ ok l
      → let (answer, s') = c.repository.insert none l (ready_at created s) in
        round c lib none request d retry created s
        ≡ inserted c lib none request (retry at) l answer s'
  unfolding round
  round_lem retry created at l s time made =
      bind_of_ok (c.generator.generate none) _ s (stream.draws s)
      ∙ bind_of_ok (creation_time c lib none request created) _ (c.generator.generate none s).1 time
      ∙ bind_of_ok
          (lift {S = S} (new_link (code (count s)) d request.owner_id at request.expires_at)) _
          (ready_at created s) made

  -- The end of a round, on a code that is free and on one that is taken.
  free_lem :
      (retry : Io S Link) (l : Link) (s : S)
      → table s l.code ≡ none
      → let (answer, s') = c.repository.insert none l s in
        (inserted c lib none request retry l answer s').0 ≡ ok l
  unfolding inserted
  free_lem retry l s free = rw (inserts.insert_free l s free) refl

  taken_lem :
      (retry : Io S Link) (l taken : Link) (s : S)
      → table s l.code ≡ some taken
      → let (answer, s') = c.repository.insert none l s in
        (inserted c lib none request retry l answer s' ≡ retry s') × (table s' ≡ table s)
  unfolding inserted
  taken_lem retry l taken s there =
      let (e, refused, is_taken) = inserts.insert_taken l taken s there in
      (rw (refused, is_taken) refl, laws.insert_err none l s e refused)

  -- What the loop does after a code that is taken, with `k` rounds left.
  again : ℕ → Time → Io S Link
  again zero at = raise (joined (sentinel code_generation_exhausted) (sentinel link_already_exists))
  again (suc k) at = rounds c lib none request d k (some at)

  rounds-round :
      (k : ℕ) (created : Option Time) (s : S)
      → rounds c lib none request d k created s ≡ round c lib none request d (again k) created s
  unfolding rounds again
  rounds-round zero created s = refl
  rounds-round (suc k) created s = refl

  -- Every code that is drawn makes a link at this clock reading, and stays as it is.
  abbrev pub Makeable : Time → Type 0
  Makeable at =
      (n : ℕ)
      → (l : Link) × (new_link (code n) d request.owner_id at request.expires_at ≡ ok l)
        × (l.code ≡ code n)

  -- The next `j` codes are taken.
  abbrev pub Taken : ℕ → S → Type 0
  Taken j s = (i : ℕ) → i < j → (x : Link) × (table s (code (count s + i)) ≡ some x)

  -- A round on a taken code goes on with the next one.
  next_round :
      (k : ℕ) (created : Option Time) (at : Time) (x : Link) (s : S)
      → (creation_time c lib none request created (c.generator.generate none s).1).0 ≡ ok at
      → Makeable at
      → table s (code (count s)) ≡ some x
      → (s' : S) × (rounds c lib none request d k created s ≡ again k at s')
        × (table s' ≡ table s)
        × (count s' ≡ count s + 1)
  next_round k created at x s time makes there =
      let (l, made, named) = makes (count s) in
      let r = ready_at created s in
      let here : table r l.code ≡ some x =
        ap (λ (t : Table). t l.code) (ready_table created s) ∙ ap (table s) (named) ∙ there in
      let (goes_on, same) = taken_lem (again k at) l x r here in
      (
        (c.repository.insert none l r).1,
        rounds-round k created s ∙ round_lem (again k) created at l s time made ∙ goes_on,
        same ∙ ready_table created s,
        stream.insert_count l r ∙ ready_count created s,
      )

  Taken-next :
      (j : ℕ) (s s' : S)
      → Taken (suc j) s
      → table s' ≡ table s
      → count s' ≡ count s + 1
      → Taken j s'
  Taken-next j s s' taken same next i low =
      let (x, there) = taken (suc i) (omega arith) in
      let shifted : count s' + i ≡ count s + suc i = omega arith in
      (
        x,
        ap (λ (t : Table). t (code (count s' + i))) same
            ∙ ap (λ (n : ℕ). table s (code n)) shifted
            ∙ there,
      )

  pub rounds_first_free :
      (j k : ℕ) (created : Option Time) (at : Time) (s : S)
      → j ≤ k
      → (creation_time c lib none request created (c.generator.generate none s).1).0 ≡ ok at
      → Makeable at
      → Taken j s
      → table s (code (count s + j)) ≡ none
      → (l : Link) × ((rounds c lib none request d k created s).0 ≡ ok l)
        × (l.code ≡ code (count s + j))
  unfolding again creation_time
  rounds_first_free zero k created at s low time makes taken free =
      let (l, made, named) = makes (count s) in
      let r = ready_at created s in
      let start : count s + 0 ≡ count s = omega arith in
      let here : table r l.code ≡ none =
        ap (λ (t : Table). t l.code) (ready_table created s)
        ∙ ap (table s) named
        ∙ ap (λ (n : ℕ). table s (code n)) (sym start)
        ∙ free in
      (
        l,
        ap (λ x. x.0) (rounds-round k created s ∙ round_lem (again k) created at l s time made)
            ∙ free_lem (again k at) l r here,
        named ∙ ap code (sym start),
      )
  rounds_first_free (suc j) zero created at s low time makes taken free = absurd (omega arith)
  rounds_first_free (suc j) (suc k) created at s low time makes taken free =
      let start : count s + 0 ≡ count s = omega arith in
      let (x, there) = taken 0 (omega arith) in
      let (s', goes_on, same, next) =
        next_round (suc k) created at x s time makes
          (ap (λ (n : ℕ). table s (code n)) (sym start) ∙ there) in
      let shifted : count s' + j ≡ count s + suc j = omega arith in
      let (l, done, named) =
        rounds_first_free j k (some at) at s' (omega arith) refl makes
          (Taken-next j s s' taken same next)
          (ap (λ (t : Table). t (code (count s' + j))) same
            ∙ ap (λ (n : ℕ). table s (code n)) shifted
            ∙ free) in
      (l, ap (λ x. x.0) goes_on ∙ done, named ∙ ap code shifted)

  pub rounds_exhausted :
      (k : ℕ) (created : Option Time) (at : Time) (s : S)
      → (creation_time c lib none request created (c.generator.generate none s).1).0 ≡ ok at
      → Makeable at
      → Taken (suc k) s
      → (rounds c lib none request d k created s).0
        ≡ err (joined (sentinel code_generation_exhausted) (sentinel link_already_exists))
  unfolding again creation_time
  rounds_exhausted zero created at s time makes taken =
      let start : count s + 0 ≡ count s = omega arith in
      let (x, there) = taken 0 (omega arith) in
      let (s', goes_on, _, _) =
        next_round zero created at x s time makes
          (ap (λ (n : ℕ). table s (code n)) (sym start) ∙ there) in
      ap (λ x. x.0) goes_on
  rounds_exhausted (suc k) created at s time makes taken =
      let start : count s + 0 ≡ count s = omega arith in
      let (x, there) = taken 0 (omega arith) in
      let (s', goes_on, same, next) =
        next_round (suc k) created at x s time makes
          (ap (λ (n : ℕ). table s (code n)) (sym start) ∙ there) in
      ap (λ x. x.0) goes_on
      ∙ rounds_exhausted k (some at) at s' refl makes (Taken-next (suc k) s s' taken same next)
