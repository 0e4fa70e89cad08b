-- ===== src/Application/Concurrent.antt =====
-- Management requests that several goroutines serve at once, over one repository: the use cases of
-- internal/link/application, each taken apart into its calls on the shared state, in any order.
pub mod Growth
pub mod Tracking
pub mod Calls
pub mod Serial
pub mod Schedules
pub mod Winner
use url_shortner.Prelude.{ℕ, List, [], ◌∷◌, ◌++◌, ◌≡◌, Option, none, some, ◌==◌, if◌then◌else◌}
use url_shortner.Text.{Text}
use url_shortner.Errors.{Error, Result, ok, err}
use url_shortner.Net.{UrlLib}
use url_shortner.Domain.Link.{Link}
use url_shortner.Ports.{Context, LinkRepository, Clock}
use url_shortner.Application.Management.Change.{ChangeRequest}
use url_shortner.Application.Management.Parts.{begin, prepare, commit}

-- How far the goroutine of a request has come.
pub data Phase : Type 0 where
  waiting : Phase
  holding : Link → Phase
  ready : Link → Phase
  finished : Result Link → Phase

-- The state behind the repository and the clock, the requests, by number, and the links of the
-- insertions that were answered without an error, in order.
pub record System (S : Type 0) : Type 0 where
  pub shared : S
  pub phase : ℕ → Phase
  pub inserted : List Link

-- What happens next: the next call of one of the requests, an insertion by a creation, a lookup by a
-- redirect or another reader, or a clock reading.
pub data Event : Type 0 where
  turn : ℕ → Event
  creates : Context → Link → Event
  looks_up : Context → Text → Event
  reads_clock : Event

-- The phase after the guards, and the one after the method of the link.
abbrev pub begun : Result Link → Phase
begun (ok link) = holding link
begun (err e) = finished (err e)

abbrev pub prepared : Result Link → Phase
prepared (ok changed) = ready changed
prepared (err e) = finished (err e)

abbrev pub update_phase : (ℕ → Phase) → ℕ → Phase → ℕ → Phase
update_phase phase i p j = if i == j then p else phase j

-- The insertions answered without an error, after one more answer.
abbrev pub noted : Result (Unit {0}) → Link → List Link → List Link
noted (ok done) l links = links ++ l ∷ []
noted (err e) l links = links

module _ {S : Type 0} (repository : LinkRepository S) (clock : Clock S) (lib : UrlLib)
    (request : ℕ → Context × ChangeRequest) where
  -- The next call of request `i`.
  unfoldable pub advance : ℕ → Phase → S → Phase × S
  advance i waiting s =
      let (ctx, r) = request i in
      let (found, s') = begin repository clock lib ctx r s in (begun found, s')
  advance i (holding link) s =
      let (ctx, r) = request i in
      let (changed, s') = prepare repository clock lib r link s in (prepared changed, s')
  advance i (ready changed) s =
      let (ctx, r) = request i in
      let (outcome, s') = commit repository clock lib ctx r changed s in (finished outcome, s')
  advance i (finished outcome) s = (finished outcome, s)

  unfoldable pub step : Event → System S → System S
  step (turn i) c =
      let (p, s) = advance i (c.phase i) c.shared in
      record c { shared = s; phase = update_phase c.phase i p }
  step (creates ctx l) c =
      let (answer, s) = repository.insert ctx l c.shared in
      record c { shared = s; inserted = noted answer l c.inserted }
  step (looks_up ctx code) c = record c { shared = (repository.find_by_code ctx code c.shared).1 }
  step reads_clock c = record c { shared = (clock.now c.shared).1 }

  unfoldable pub run : List Event → System S → System S
  run [] c = c
  run (e ∷ events) c = run events (step e c)
