-- ===== src/Tests/Races.antt =====
-- Examples on racing creations: two requests under one key, both asked before either saves.
use url_shortner.Prelude.{arith, ℕ, ◌≡◌, refl, List, [], ◌∷◌, none}
use url_shortner.Prelude.Maps.{lookup, insert}
use url_shortner.Text.{
  trim_space, trim_left, trim_right, is_space, is_empty, text_eq, to_lower, to_lower_rune,
}
use url_shortner.Time.{is_zero, zero_time}
use url_shortner.Errors.{Result, ok, is, fail, idempotency_key_conflict}
use url_shortner.Domain.Destination.{new_destination_url}
use url_shortner.Domain.Destination
use url_shortner.Domain.Link.{Link, new_link, expires_too_early}
use url_shortner.Ports.{Context}
use url_shortner.Memory.Repository
use url_shortner.Memory.Idempotency.{get_record, save_record, save_over}
use url_shortner.Memory.Idempotency.Records.{save_stays}
use url_shortner.Application.Creation.{
  CreateGeneratedLinkRequest, active_store, replay_outcome, replayed, saved, creation_time,
}
use url_shortner.Application.Creation.Race.{asking, answered, System, draw, advance, step, run}
use url_shortner.Application.Creation.Race.Answered.{run-answered}
use url_shortner.Application.Creation.Race.Agreement.{StaysLaws, run_agrees}
use url_shortner.Tests.World.{World, world, lib, store_laws, never}
use url_shortner.Tests.Requests.{keyed_service, wanted, made}

abbrev both : ℕ → Context × CreateGeneratedLinkRequest
both k = (none, wanted)

-- Request 0 asks and draws a taken code and a free one; request 1 asks; request 0 saves; request 1
-- draws a code and is refused; request 2 comes late and is answered by the record.
abbrev turns : List ℕ
turns = 0 ∷ 0 ∷ 1 ∷ 0 ∷ 0 ∷ 1 ∷ 1 ∷ 2 ∷ []

abbrev start : System World
start = record { shared = world; phase = λ k. asking }

abbrev finish : System World
finish = run keyed_service lib both turns start

stays : StaysLaws keyed_service store_laws
unfolding store_laws
stays = record {
  save_stays = λ ctx owner key l w. save_stays never ctx owner key l w.records;
  insert_stays = λ ctx l w owner key x h. h;
  generate_stays = λ ctx w owner key x h. h;
  now_stays = λ w owner key x h. h;
}

first_answer : finish.phase 0 ≡ answered (ok made)
unfolding run step advance draw active_store replayed replay_outcome saved creation_time get_record
    save_record save_over lookup insert is is_empty new_destination_url trim_space trim_right
    trim_left is_space text_eq to_lower to_lower_rune new_link Destination.is_zero expires_too_early
    is_zero zero_time Repository.insert
first_answer = refl

second_answer : finish.phase 1 ≡ answered (fail idempotency_key_conflict)
unfolding run step advance draw active_store replayed replay_outcome saved creation_time get_record
    save_record save_over lookup insert is is_empty new_destination_url trim_space trim_right
    trim_left is_space text_eq to_lower to_lower_rune new_link Destination.is_zero expires_too_early
    is_zero zero_time Repository.insert
second_answer = refl

late_answer : finish.phase 2 ≡ answered (ok made)
unfolding run step advance draw active_store replayed replay_outcome saved creation_time get_record
    save_record save_over lookup insert is is_empty new_destination_url trim_space trim_right
    trim_left is_space text_eq to_lower to_lower_rune new_link Destination.is_zero expires_too_early
    is_zero zero_time Repository.insert
late_answer = refl

run_agrees_example : made ≡ made
unfolding active_store is_empty
run_agrees_example =
    run_agrees keyed_service lib store_laws stays both (λ k. refl) turns start 0 2 made made
      (λ k. refl) refl refl first_answer late_answer

-- Request 1 is turned to seven times, among the calls of the others.
abbrev busy : List ℕ
busy = 1 ∷ 0 ∷ 1 ∷ 1 ∷ 0 ∷ 2 ∷ 1 ∷ 0 ∷ 1 ∷ 0 ∷ 1 ∷ 1 ∷ []

run-answered_example :
    (outcome : Result Link) × ((run keyed_service lib both busy start).phase 1 ≡ answered outcome)
run-answered_example = run-answered keyed_service lib both 1 busy start refl (omega arith)
