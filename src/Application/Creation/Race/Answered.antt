-- ===== src/Application/Creation/Race/Answered.antt =====
-- How many calls a creation of create_generated_link.go needs, whatever other creations do meanwhile.
use mathlib.Core.Path.{subst}
use url_shortner.Prelude.{
  ℕ, zero, suc, ◌+◌, ◌-◌, ◌≤◌, ◌≡◌, refl, ap, Option, none, some, List, [], ◌∷◌, arith, ◌==◌,
  if◌then◌else◌, Bool-cases, inl, inr,
}
use url_shortner.Errors.{Result, ok, err}
use url_shortner.Net.{UrlLib}
use url_shortner.Domain.Destination.{DestinationUrl, new_destination_url}
use url_shortner.Domain.Link.{Link}
use url_shortner.Ports.{Context}
use url_shortner.Application.Creation.{
  CreateGeneratedLink, CreateGeneratedLinkRequest, active_store, replayed, saved,
}
use url_shortner.Application.Creation.Race.{
  Drawn, made, taken, draw, Phase, asking, drawing, saving, answered, parsed, asked, drawn, kept,
  System, advance, step, run,
}

-- How often a number stands in a list of turns.
abbrev pub count : ℕ → List ℕ → ℕ
count i [] = 0
count i (j ∷ turns) = (if j == i then 1 else 0) + count i turns

-- The most calls that are left: the lookup, a round for each attempt, and the save.
abbrev left : Phase → ℕ
left asking = 7
left (drawing d k created) = k + 2
left (saving link) = 1
left (answered outcome) = 0

left_none : (p : Phase) → left p ≡ 0 → (outcome : Result Link) × (p ≡ answered outcome)
left_none asking e = absurd (omega arith)
left_none (drawing d k created) e = absurd (omega arith)
left_none (saving link) e = absurd (omega arith)
left_none (answered outcome) e = (outcome, refl)

left-parsed : (r : Result DestinationUrl) → left (parsed r) ≤ 6
left-parsed (ok d) = omega arith
left-parsed (err e) = omega arith

left-asked :
    (lib : UrlLib) (q : CreateGeneratedLinkRequest) (r : Result (Option Link))
    → left (asked lib q r) ≤ 6
left-asked lib q (ok (some link)) = omega arith
left-asked lib q (ok none) = left-parsed (new_destination_url lib q.destination)
left-asked lib q (err e) = omega arith

left-drawn : (d : DestinationUrl) (k : ℕ) (r : Result Drawn) → left (drawn d k r) ≤ k + 1
left-drawn d k (ok (made link)) = omega arith
left-drawn d zero (ok (taken at)) = omega arith
left-drawn d (suc k) (ok (taken at)) = omega arith
left-drawn d k (err e) = omega arith

left-kept : (link : Link) (r : Result (Unit {0})) → left (kept link r) ≤ 0
left-kept link (ok done) = omega arith
left-kept link (err e) = omega arith

module _ {S : Type 0} (c : CreateGeneratedLink S) (lib : UrlLib)
    (request : ℕ → Context × CreateGeneratedLinkRequest) where
  -- A call of a creation that is not answered leaves at least one call less.
  left-advance : (i : ℕ) (p : Phase) (s : S) → left (advance c lib request i p s).0 ≤ left p - 1
  unfolding advance
  left-advance i asking s =
      let (ctx, q) = request i in
      left-asked lib q (replayed c lib ctx q (active_store c lib ctx q) s).0
  left-advance i (drawing d k created) s =
      let (ctx, q) = request i in
      let fewer = left-drawn d k (draw c lib ctx q d created s).0 in omega arith
  left-advance i (saving link) s =
      let (ctx, q) = request i in
      left-kept link (saved c lib ctx q (active_store c lib ctx q) link s).0
  left-advance i (answered outcome) s = omega arith

  left-step :
      (i j : ℕ) (x : System S)
      → left ((step c lib request j x).phase i) ≤ left (x.phase i) - (if j == i then 1 else 0)
  unfolding step
  left-step i j x = elim (Bool-cases (j == i)) [
    | inl same ↦
        let is : j ≡ i = ground arith in
        rw same (
          subst
            (λ (k : ℕ).
              left (advance c lib request j (x.phase j) x.shared).0 ≤ left (x.phase k) - 1)
            is (left-advance j (x.phase j) x.shared))
    | inr other ↦ rw other (omega arith)
  ]

  left-run :
      (i : ℕ) (turns : List ℕ) (x : System S)
      → left ((run c lib request turns x).phase i) ≤ left (x.phase i) - count i turns
  unfolding run
  left-run i [] x = omega arith
  left-run i (j ∷ turns) x =
      let first = left-step i j x in
      let later = left-run i turns (step c lib request j x) in omega arith

  -- Whatever the order of the calls of several creations, a creation that had not begun is answered,
  -- with a link or an error, once it has made seven calls: the lookup of its key, at most five
  -- attempts, and the save.
  pub run-answered :
      (i : ℕ) (turns : List ℕ) (x : System S)
      → x.phase i ≡ asking
      → 7 ≤ count i turns
      → (outcome : Result Link) × ((run c lib request turns x).phase i ≡ answered outcome)
  run-answered i turns x asks enough =
      let fewer = left-run i turns x in
      let start : left (x.phase i) ≡ 7 = ap left asks in
      left_none ((run c lib request turns x).phase i) (omega arith)
