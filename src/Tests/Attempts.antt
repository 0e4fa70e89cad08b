-- ===== src/Tests/Attempts.antt =====
-- Examples on the attempts of a creation: a taken code and then a free one, and only a taken code.
use url_shortner.Prelude.{
  true, ℕ, ◌+◌, ◌<◌, ◌≡◌, refl, none, some, [], arith, if◌then◌else◌, ◌==◌, Bool-cases, inl, inr,
}
use url_shortner.Prelude.Maps.{lookup}
use url_shortner.Text.{
  Text, codes, trim_space, trim_left, trim_right, is_space, is_empty, text_eq, to_lower,
  to_lower_rune,
}
use url_shortner.Time.{is_zero, zero_time}
use url_shortner.Errors.{ok, err, sentinel, joined, code_generation_exhausted, link_already_exists}
use url_shortner.Domain.Destination.{DestinationUrl, new_destination_url}
use url_shortner.Domain.Destination
use url_shortner.Domain.Link.{Link, new_link, expires_too_early}
use url_shortner.Ports.Laws.{GeneratorLaws, InsertsFree}
use url_shortner.Memory.Repository.Refinement.{InsertsFree-repository}
use url_shortner.Application.Creation.{
  CreateGeneratedLink, CreateGeneratedLinkRequest, create_generated_link,
}
use url_shortner.Application.Creation.Rounds.{StreamLaws}
use url_shortner.Application.Creation.Progress.{create_first_free, create_exhausted}
use url_shortner.Tests.World.{
  site, lib, home, link, World, world, links, table, links_laws, clock_laws,
}
use url_shortner.Tests.Requests.{wanted, service}

abbrev keyless : CreateGeneratedLinkRequest
keyless = record wanted { idempotency_key = [] }

-- A generator whose first code is the taken one; its later codes are `later`.
abbrev stream : Text → ℕ → Text
stream later n = if n == 0 then codes "0" else later

abbrev drawing : Text → CreateGeneratedLink World
drawing later = record service {
  generator = record {
    generate = λ ctx w. (ok (stream later w.drawn), record w { drawn = w.drawn + 1 });
  };
}

generator_laws : (later : Text) → GeneratorLaws table (drawing later).generator
generator_laws later = record { generate_keeps = λ ctx w. refl }

links_free : InsertsFree links table
links_free = record {
  insert_free = λ l w. InsertsFree-repository.insert_free l w.links;
  insert_taken = λ l taken w. InsertsFree-repository.insert_taken l taken w.links;
}

stream_laws : (later : Text) → StreamLaws (drawing later) (stream later) (λ (w : World). w.drawn)
stream_laws later = record {
  draws = λ w. refl;
  drawn = λ w. refl;
  insert_count = λ l w. refl;
  now_count = λ w. refl;
}

parsed : new_destination_url lib site ≡ ok home
unfolding new_destination_url trim_space trim_right trim_left is_space text_eq to_lower
    to_lower_rune is_empty
parsed = refl

abbrev made_with : Text → Link
made_with code = record {
  code = code;
  destination = home;
  owner_id = codes "ann";
  status = link.status;
  created_at = 5;
  updated_at = 5;
  expires_at = some 90;
  version = 1;
}

MadeFrom : Text → Type 0
MadeFrom code = (l : Link) × (new_link code home (codes "ann") 5 (some 90) ≡ ok l) × (l.code ≡ code)

makes_0 : MadeFrom (codes "0")
unfolding MadeFrom new_link is_empty trim_space trim_right trim_left is_space Destination.is_zero
    is_zero zero_time expires_too_early
makes_0 = (made_with (codes "0"), refl, refl)

makes_1 : MadeFrom (codes "1")
unfolding MadeFrom new_link is_empty trim_space trim_right trim_left is_space Destination.is_zero
    is_zero zero_time expires_too_early
makes_1 = (made_with (codes "1"), refl, refl)

makes : (later : Text) → MadeFrom later → (n : ℕ) → MadeFrom (stream later n)
makes later h n = elim (Bool-cases (n == 0)) [
  | inl first ↦ rw first makes_0
  | inr other ↦ rw other h
]

at_0 : (code : Text) → code ≡ codes "0" → (x : Link) × (table world code ≡ some x)
unfolding lookup text_eq
at_0 code same = (link, rw same refl)

first_0 : (i : ℕ) → i < 1 → stream (codes "1") i ≡ codes "0"
first_0 i low = let zero_test : (i == 0) ≡ true = ground arith in rw zero_test refl

always_0 : (i : ℕ) → stream (codes "0") i ≡ codes "0"
always_0 i = elim (Bool-cases (i == 0)) [ inl first ↦ rw first refl | inr other ↦ rw other refl ]

create_first_free_example :
    (l : Link) × ((create_generated_link (drawing (codes "1")) lib none keyless world).0 ≡ ok l)
    × (l.code ≡ codes "1")
unfolding MadeFrom lookup text_eq is_empty
create_first_free_example =
    create_first_free (drawing (codes "1")) lib links_laws clock_laws (generator_laws (codes "1"))
      links_free (stream (codes "1")) (λ w. w.drawn) (stream_laws (codes "1")) keyless home world
      refl parsed 1 (omega arith) (makes (codes "1") makes_1)
      (λ i low. at_0 (stream (codes "1") (0 + i)) (first_0 (0 + i) (omega arith))) refl

create_exhausted_example :
    (create_generated_link (drawing (codes "0")) lib none keyless world).0
    ≡ err (joined (sentinel code_generation_exhausted) (sentinel link_already_exists))
unfolding MadeFrom lookup text_eq is_empty
create_exhausted_example =
    create_exhausted (drawing (codes "0")) lib links_laws clock_laws (generator_laws (codes "0"))
      links_free (stream (codes "0")) (λ w. w.drawn) (stream_laws (codes "0")) keyless home world
      refl parsed (makes (codes "0") makes_0)
      λ i low. at_0 (stream (codes "0") (0 + i)) (always_0 (0 + i))
