-- ===== src/Tests/Concurrency.antt =====
-- Examples on concurrent requests: two changes of one link whose calls alternate.
use url_shortner.Prelude.{
  ◌≢◌, ℕ, ◌<◌, ◌+◌, ◌≡◌, refl, List, [], ◌∷◌, if◌then◌else◌, ◌==◌, none, arith,
}
use url_shortner.Prelude.Maps.{insert, lookup}
use url_shortner.Text.{codes, trim_space, trim_left, trim_right, is_space, is_empty, text_eq}
use url_shortner.Time.{is_zero, zero_time, uint64_mod}
use url_shortner.Errors.{ok, fail, version_conflict}
use url_shortner.Domain.Status.{can_transition_to}
use url_shortner.Domain.Link.{Link}
use url_shortner.Domain.Link.Methods.{disable, set_expiration}
use url_shortner.Ports.{Context}
use url_shortner.Memory.Repository
use url_shortner.Memory.Repository.{find_by_code, update}
use url_shortner.Application.Management.{owned_link, status_method, expiration_method}
use url_shortner.Application.Management.Change.{ChangeRequest, version_of}
use url_shortner.Application.Management.Parts.{prepare, commit}
use url_shortner.Application.Concurrent.{
  waiting, finished, System, Event, turn, creates, looks_up, reads_clock, advance, step, run,
}
use url_shortner.Application.Concurrent.Growth.{IsKeyed}
use url_shortner.Application.Concurrent.Serial.{IsSerial}
use url_shortner.Application.Concurrent.Schedules.{run-IsSerial}
use url_shortner.Application.Concurrent.Winner.{run-one_winner}
use url_shortner.Tests.World.{lib, World, world, links, table, links_laws, clock, clock_laws}
use url_shortner.Tests.Requests.{world-IsSound, switch_off, limit, off}

abbrev rivals : ℕ → Context × ChangeRequest
rivals k = if k == 0 then (none, switch_off) else (none, limit)

abbrev start : System World
start = record { shared = world; phase = λ k. waiting; inserted = [] }

abbrev another : Link
another = record off { code = codes "7" }

-- Both requests read the link before either writes it, and another link is inserted in between.
abbrev alternate : List Event
alternate =
    turn 0
    ∷ turn 1
    ∷ looks_up none (codes "0")
    ∷ creates none another
    ∷ turn 1
    ∷ turn 0
    ∷ reads_clock
    ∷ turn 0
    ∷ turn 1
    ∷ []

abbrev finish : System World
finish = run links clock lib rivals alternate start

off' : Link
off' = record off { updated_at = 6 }

first_wins : finish.phase 0 ≡ finished (ok off')
unfolding off' run step advance prepare commit owned_link is_empty trim_space trim_right trim_left
    is_space find_by_code lookup text_eq status_method expiration_method set_expiration disable
    is_zero zero_time can_transition_to update Repository.insert insert
first_wins = refl

second_loses : finish.phase 1 ≡ finished (fail version_conflict)
unfolding off' run step advance prepare commit owned_link is_empty trim_space trim_right trim_left
    is_space find_by_code lookup text_eq status_method expiration_method set_expiration disable
    is_zero zero_time can_transition_to update Repository.insert insert
second_loses = refl

rivals_bound : (k : ℕ) → version_of (rivals k).1 + 1 < uint64_mod
rivals_bound k = ground arith

world-IsKeyed : IsKeyed (table world)
world-IsKeyed c l h = (world-IsSound.at_code c l h).0

run-IsSerial_example : IsSerial lib rivals table alternate start finish
run-IsSerial_example =
    run-IsSerial links clock lib links_laws clock_laws rivals alternate start rivals_bound
      world-IsKeyed λ k. refl

run-one_winner_example : finish.phase 1 ≢ finished (ok off')
run-one_winner_example =
    run-one_winner links clock lib links_laws clock_laws rivals alternate start 0 1 off' off'
      rivals_bound world-IsKeyed (λ k. refl) (λ e. ground arith) refl refl first_wins
