-- ===== src/Application/Concurrent/Schedules.antt =====
-- Every schedule of concurrent management requests, creations and lookups is serializable.
use mathlib.Core.Path.{subst}
use url_shortner.Prelude.{◌↔◌, ℕ, ◌<◌, ◌+◌, ◌≡◌, ◌∙◌, sym, ap, inl, inr, refl, List, [], ◌∷◌}
use url_shortner.Time.{uint64_mod}
use url_shortner.Errors.{Result, ok, Result-cases}
use url_shortner.Net.{UrlLib}
use url_shortner.Domain.Link.{Link}
use url_shortner.Ports.{Context, LinkRepository, Clock}
use url_shortner.Ports.Laws.{Table, RepositoryLaws, ClockLaws}
use url_shortner.Application.Management.Change.{ChangeRequest, version_of}
use url_shortner.Application.Concurrent.{
  Phase, waiting, finished, System, Event, turn, creates, looks_up, reads_clock, update_phase,
  noted, advance, step, run,
}
use url_shortner.Application.Concurrent.Growth.{
  IsKeyed, Grows, Grows-refl, written-IsKeyed, insert-Grows,
}
use url_shortner.Application.Concurrent.Tracking.{Sees, Sees-Grows}
use url_shortner.Application.Concurrent.Calls.{Effect, quiet, changed, served-Grows, advance_lem}
use url_shortner.Application.Concurrent.Serial.{
  Moves, still, fresh, whole, update_phase_cases, IsSerial, IsSerial-refl, Moves-IsSerial,
}

module _ {S : Type 0} (repository : LinkRepository S) (clock : Clock S) (lib : UrlLib)
    {table : S → Table} (laws : RepositoryLaws repository table)
    (clock_laws : ClockLaws table clock) (request : ℕ → Context × ChangeRequest) where
  open laws use {find_keeps, insert_ok, insert_err}

  -- The links stand under their codes, and each request in progress sees the table rightly.
  pub record IsConsistent (c : System S) : Type 0 where
    pub keyed : IsKeyed (table c.shared)
    pub sees : (i : ℕ) → Sees lib (table c.shared) (request i).1 (c.phase i)

  -- A step that keeps the phases.
  outside :
      (c : System S) (s' : S) (links : List Link)
      → Grows (table c.shared) (table s')
      → IsKeyed (table s')
      → IsConsistent c
      → IsConsistent (record c { shared = s'; inserted = links })
  outside c s' links grows keyed h = record {
    keyed = keyed;
    sees = λ i. Sees-Grows lib (request i).1 (c.phase i) grows (h.sees i);
  }

  unchanged :
      (e : Event) (c : System S) (s' : S) (links : List Link)
      → table s' ≡ table c.shared
      → links ≡ c.inserted
      → IsConsistent c
      → Moves lib request (table c.shared) c.phase c.inserted (table s') c.phase links e
        × IsConsistent (record c { shared = s'; inserted = links })
  unchanged e c s' links same noted_same h = (
    still e same (λ j l. (λ q. q, λ q. q)) noted_same,
    outside c s' links (subst (Grows (table c.shared)) (sym same) (Grows-refl (table c.shared)))
        (subst IsKeyed (sym same) h.keyed) h,
  )

  inserted :
      (c : System S) (ctx : Context) (l : Link)
      → IsConsistent c
      → let (answer, s') = repository.insert ctx l c.shared in
        let links = noted answer l c.inserted in
        Moves lib request
          (table c.shared)
          c.phase
          c.inserted
          (table s')
          c.phase
          links
          (creates ctx l)
        × IsConsistent (record c { shared = s'; inserted = links })
  inserted c ctx l h =
      let links = noted (repository.insert ctx l c.shared).0 l c.inserted in
      elim (Result-cases (repository.insert ctx l c.shared).0) [
        | inl (tt, accepted) ↦
            let s' = (repository.insert ctx l c.shared).1 in
            let (free, kept) = insert_ok ctx l c.shared accepted in
            (
              fresh ctx l free kept refl
                  (ap (λ (a : Result (Unit {0})). noted a l c.inserted) accepted),
              outside c s' links
                  (subst (Grows (table c.shared)) (sym kept) (insert-Grows (table c.shared) l free))
                  (subst IsKeyed (sym kept) (written-IsKeyed (table c.shared) l h.keyed)) h,
            )
        | inr (e, refused) ↦
            unchanged (creates ctx l) c (repository.insert ctx l c.shared).1 links
              (insert_err ctx l c.shared e refused)
              (ap (λ (a : Result (Unit {0})). noted a l c.inserted) refused) h
      ]

  module _ (c : System S) (i : ℕ) (p' : Phase) (s' : S) where
    abbrev after : System S
    after = record c { shared = s'; phase = update_phase c.phase i p' }

    all_see :
        Grows (table c.shared) (table s')
        → Sees lib (table s') (request i).1 p'
        → IsConsistent c
        → (j : ℕ) → Sees lib (table s') (request j).1 (after.phase j)
    all_see grows seen h j = elim (update_phase_cases c.phase i p' j) [
      | inl (same, there) ↦
          subst (Sees lib (table s') (request j).1) (sym there)
            (subst (λ (k : ℕ). Sees lib (table s') (request k).1 p') same seen)
      | inr (other, there) ↦
          subst (Sees lib (table s') (request j).1) (sym there)
            (Sees-Grows lib (request j).1 (c.phase j) grows (h.sees j))
    ]

    -- The answers after a call that answers nobody.
    still_phases :
        ((l : Link) → (p' ≡ finished (ok l)) ↔ (c.phase i ≡ finished (ok l)))
        → (j : ℕ) (l : Link) → (after.phase j ≡ finished (ok l)) ↔ (c.phase j ≡ finished (ok l))
    still_phases same_answer j l = elim (update_phase_cases c.phase i p' j) [
      | inl (same, there) ↦ (
        λ e. ap c.phase (sym same) ∙ (same_answer l).0 (sym there ∙ e),
        λ e. there ∙ (same_answer l).1 (ap c.phase same ∙ e),
      )
      | inr (other, there) ↦ (λ e. sym there ∙ e, λ e. there ∙ e)
    ]

    by_effect :
        version_of (request i).1 + 1 < uint64_mod
        → IsConsistent c
        → Effect lib (request i).1 (table c.shared) (c.phase i) (table s') p'
        → Sees lib (table s') (request i).1 p'
        → Moves lib request
            (table c.shared)
            c.phase
            c.inserted
            (table s')
            after.phase
            c.inserted
            (turn i)
          × IsConsistent after
    by_effect bound h (quiet same answers) seen =
        let grows = subst (Grows (table c.shared)) (sym same) (Grows-refl (table c.shared)) in
        (
          still (turn i) same (still_phases answers) refl,
          record { keyed = subst IsKeyed (sym same) h.keyed; sees = all_see grows seen h },
        )
    by_effect bound h (changed old new owned made kept was now) seen =
        let t = table c.shared in
        let grows =
          subst (Grows t) (sym kept)
            (served-Grows lib t (request i).1 old new h.keyed bound owned made) in
        (
          whole i old new (owned, made) kept was (ap (update_phase c.phase i) now) refl,
          record {
            keyed = subst IsKeyed (sym kept) (written-IsKeyed t new h.keyed);
            sees = all_see grows seen h;
          },
        )

  turned :
      (c : System S) (i : ℕ)
      → version_of (request i).1 + 1 < uint64_mod
      → IsConsistent c
      → let c' = step repository clock lib request (turn i) c in
        Moves lib request
          (table c.shared)
          c.phase
          c.inserted
          (table c'.shared)
          c'.phase
          c'.inserted
          (turn i)
        × IsConsistent c'
  unfolding step
  turned c i bound h =
      let (p', s') = advance repository clock lib request i (c.phase i) c.shared in
      let (effect, seen) =
        advance_lem repository clock lib laws clock_laws request i (c.phase i) c.shared bound
          h.keyed (h.sees i) in
      by_effect c i p' s' bound h effect seen

  step_lem :
      (e : Event) (c : System S)
      → ((i : ℕ) → version_of (request i).1 + 1 < uint64_mod)
      → IsConsistent c
      → let c' = step repository clock lib request e c in
        Moves lib request
          (table c.shared)
          c.phase
          c.inserted
          (table c'.shared)
          c'.phase
          c'.inserted
          e
        × IsConsistent c'
  unfolding step
  step_lem (turn i) c bound h = turned c i (bound i) h
  step_lem (creates ctx l) c bound h = inserted c ctx l h
  step_lem (looks_up ctx code) c bound h =
      unchanged (looks_up ctx code) c (repository.find_by_code ctx code c.shared).1 c.inserted
        (find_keeps ctx code c.shared) refl h
  step_lem reads_clock c bound h =
      unchanged reads_clock c (clock.now c.shared).1 c.inserted (clock_laws.now_keeps c.shared) refl
        h

  run_lem :
      (events : List Event) (c : System S)
      → ((i : ℕ) → version_of (request i).1 + 1 < uint64_mod)
      → IsConsistent c
      → IsSerial lib request table events c (run repository clock lib request events c)
        × IsConsistent (run repository clock lib request events c)
  unfolding run
  run_lem [] c bound h = (IsSerial-refl lib request table c, h)
  run_lem (e ∷ events) c bound h =
      let c' = step repository clock lib request e c in
      let (moves, h') = step_lem e c bound h in
      let (serial, end) = run_lem events c' bound h' in
      let final = run repository clock lib request events c' in
      (Moves-IsSerial lib request table events e c c' final moves serial, end)

  -- The requests are not begun.
  waiting-IsConsistent :
      (c : System S) → IsKeyed (table c.shared) → ((i : ℕ) → c.phase i ≡ waiting) → IsConsistent c
  unfolding Sees
  waiting-IsConsistent c keyed waits = record {
    keyed = keyed;
    sees = λ i. subst (Sees lib (table c.shared) (request i).1) (sym (waits i)) tt;
  }

  -- Whatever the schedule of requests that have not begun, on a table where each link stands under
  -- its code, with insertions and lookups between their calls, the table afterwards is what the
  -- events make of it one at a time, each with its whole effect or none: an insertion that is
  -- answered without an error writes its link on a free code, one turn of each request that is
  -- answered with a link writes that link over the one stored at that turn, as the request asks,
  -- and no other event changes the table, as long as no expected version is the highest number of
  -- its width.
  pub run-IsSerial :
      (events : List Event) (c : System S)
      → ((i : ℕ) → version_of (request i).1 + 1 < uint64_mod)
      → IsKeyed (table c.shared)
      → ((i : ℕ) → c.phase i ≡ waiting)
      → IsSerial lib request table events c (run repository clock lib request events c)
  run-IsSerial events c bound keyed waits =
      (run_lem events c bound (waiting-IsConsistent c keyed waits)).0
