-- ===== src/Tests/Requests.antt =====
-- Examples on requests: the management of links, and the creation of links.
use mathlib.Core.Path.{subst}
use url_shortner.Prelude.{Bool-cases, ◌≡◌, ◌⊎◌, refl, none, some, arith, inl, inr}
use url_shortner.Prelude.Maps.{lookup}
use url_shortner.Text.{
  codes, trim_space, trim_left, trim_right, is_space, is_empty, text_eq, text_eq_iff, text_key,
  to_lower, to_lower_rune,
}
use url_shortner.Time.{is_zero, zero_time}
use url_shortner.Errors.{ok, is, fail, link_access_denied}
use url_shortner.Domain.Status.{active, disabled, deleted, can_transition_to}
use url_shortner.Domain.Destination.{new_destination_url}
use url_shortner.Domain.Destination
use url_shortner.Domain.Link.{Link, new_link, expires_too_early}
use url_shortner.Domain.Link.Methods.{disable}
use url_shortner.Domain.Link.Validity.{IsValid}
use url_shortner.Ports.{IdempotencyStore}
use url_shortner.Ports.Laws.{StoreLaws, written}
use url_shortner.Memory.Repository.{Links, find_by_code, update, repository}
use url_shortner.Memory.Repository
use url_shortner.Memory.Idempotency.{get_record, save_record, save_over, idempotency_key_key}
use url_shortner.Application.Management.{owned_link, status_method, change_link_status}
use url_shortner.Application.Management.Change.{ChangeRequest, status, expiration, change}
use url_shortner.Application.Management.Parts.{Owned, Makes}
use url_shortner.Application.Management.Outcome.{change_ok}
use url_shortner.Application.Management.Locking.{IsSound, change-IsSound}
use url_shortner.Application.Creation.{
  replay_outcome, or_fresh, create_fresh, active_store, creation_time, inserted, replayed, round,
  rounds, saved, CreateGeneratedLinkRequest, CreateGeneratedLink, create_generated_link,
}
use url_shortner.Application.Creation.Replay.{Replayed, Created, create_ok}
use url_shortner.Application.Creation.Replay.Twice.{with_store, create_twice}
use url_shortner.Tests.World.{
  site, lib, home, link, World, world, links, table, links_laws, clock, clock_laws, generator,
  generator_laws, store, store_laws,
}
use url_shortner.Tests.Links.{link-IsValid}

pub world-IsSound : IsSound (table world)
unfolding lookup
world-IsSound = record {
  at_code = λ c l h. elim (Bool-cases (text_eq (codes "0") c)) [
    | inl same ↦
        let found : some link ≡ some l = rw same at h in
        let same_link : link ≡ l = cc in
        subst (λ (x : Link). (x.code ≡ c) × IsValid x) same_link
          ((text_eq_iff (codes "0") c).0 same, link-IsValid)
    | inr other ↦ absurd (let gone : none ≡ some l = rw other at h in ground arith)
  ];
}

abbrev pub switch_off : ChangeRequest
switch_off =
    status
      (record { code = codes "0"; owner_id = codes "ann"; status = disabled; expected_version = 1 })

abbrev pub limit : ChangeRequest
limit = expiration (record {
  code = codes "0";
  owner_id = codes "ann";
  expires_at = some 90;
  expected_version = 1;
})

abbrev theft : ChangeRequest
theft =
    status
      (record { code = codes "0"; owner_id = codes "eve"; status = deleted; expected_version = 1 })

abbrev pub off : Link
off = record link { status = disabled; updated_at = 5; version = 2 }

switched_off : (change links clock lib none switch_off world).0 ≡ ok off
unfolding change change_link_status owned_link is_empty trim_space trim_right trim_left is_space
    find_by_code lookup text_eq status_method disable is_zero zero_time can_transition_to update
switched_off = refl

refused : (change links clock lib none theft world).0 ≡ fail link_access_denied
unfolding change change_link_status owned_link is_empty trim_space trim_right trim_left is_space
    find_by_code lookup text_eq
refused = refl

change_ok_example :
    (old : Link) × Owned (table world) (codes "0") (codes "ann") 1 old
    × Makes lib switch_off old off
    × (table (change links clock lib none switch_off world).1 ≡ written off (table world))
unfolding trim_space trim_left trim_right is_space
change_ok_example =
    change_ok links clock lib links_laws clock_laws none switch_off world off switched_off

change-IsSound_example : IsSound (table (change links clock lib none switch_off world).1)
change-IsSound_example =
    change-IsSound links clock lib links_laws clock_laws none switch_off world (omega arith)
      world-IsSound

abbrev pub service : CreateGeneratedLink World
service = record {
  repository = links;
  generator = generator;
  clock = clock;
  idempotency_store = none;
}

abbrev pub keyed_service : CreateGeneratedLink World
keyed_service = with_store service store lib links_laws clock_laws generator_laws store_laws

-- Asks for a link to the one site.
abbrev pub wanted : CreateGeneratedLinkRequest
wanted = record {
  destination = site;
  owner_id = codes "ann";
  expires_at = some 90;
  idempotency_key = codes "k";
}

-- The code 0 is taken, so the generator is asked twice.
abbrev pub made : Link
made = record {
  code = codes "1";
  destination = home;
  owner_id = codes "ann";
  status = active;
  created_at = 5;
  updated_at = 5;
  expires_at = some 90;
  version = 1;
}

created : (create_generated_link keyed_service lib none wanted world).0 ≡ ok made
unfolding create_generated_link is_empty replay_outcome get_record lookup is or_fresh create_fresh
    new_destination_url trim_space trim_right trim_left is_space text_eq to_lower to_lower_rune
    new_link Destination.is_zero active_store creation_time inserted replayed round rounds saved
    expires_too_early is_zero zero_time save_record save_over Repository.insert find_by_code
created = refl

store_of :
    (other : IdempotencyStore World)
    → keyed_service.idempotency_store ≡ some other
    → StoreLaws table other
store_of other e = let same : store ≡ other = cc in subst (StoreLaws table) same store_laws

create_ok_example :
    (Replayed keyed_service lib links_laws clock_laws generator_laws store_of none wanted world made
      × (table (create_generated_link keyed_service lib none wanted world).1 ≡ table world))
    ⊎ Created keyed_service lib links_laws clock_laws generator_laws store_of none wanted world
        (create_generated_link keyed_service lib none wanted world).1
        made
create_ok_example =
    create_ok keyed_service lib links_laws clock_laws generator_laws store_of none wanted world made
      created

-- The same owner and key, for another destination.
abbrev wanted_again : CreateGeneratedLinkRequest
wanted_again = record wanted { destination = codes "https://pkg.go.dev/" }

create_twice_example :
    create_generated_link keyed_service lib none wanted_again
      (create_generated_link keyed_service lib none wanted world).1
    ≡ (ok made, (create_generated_link keyed_service lib none wanted world).1)
unfolding is_empty
create_twice_example =
    create_twice service store lib links_laws clock_laws generator_laws store_laws none wanted
      wanted_again world made refl refl refl created
