-- ===== src/Domain/Link/Lifecycle.antt =====
-- What a sequence of mutations does to a link.
use url_shortner.Prelude.{
  ◌↔◌, ◌+◌, ◌≤◌, ◌<◌, ◌≡◌, ◌≢◌, ◌⊎◌, ◌∙◌, sym, inl, inr, refl, ap, false, ◌%◌, none, some, List, [],
  ◌∷◌, arith, length,
}
use url_shortner.Text.{text_eq_iff}
use url_shortner.Time.{Time, is_zero, uint64_mod}
use url_shortner.Errors.{Result, ok, err}
use url_shortner.Domain.Status.{LinkStatus, active, disabled, deleted}
use url_shortner.Domain.Status.Transitions.{Edge, can_transition_to_iff}
use url_shortner.Domain.Status
use url_shortner.Domain.Destination.{same}
use url_shortner.Domain.Destination
use url_shortner.Domain.Link.{Link}
use url_shortner.Domain.Link.Methods.{
  Mutation, to_disabled, to_active, to_deleted, to_destination, to_expiration, to_no_expiration,
  mutate, validate_mutation_time,
}
use url_shortner.Domain.Link.Validity.{IsValid, mutate-IsValid}

-- When a mutation is allowed, from the documented rules.
abbrev pub InOrder : Time → Link → Type 0
InOrder at l = (is_zero at ≡ false) × (l.created_at ≤ at) × (l.updated_at < at)

abbrev pub Allowed : Mutation → Time → Link → Type 0
Allowed to_disabled at l = InOrder at l × Edge l.status disabled
Allowed to_active at l = InOrder at l × Edge l.status active
Allowed to_deleted at l = InOrder at l × Edge l.status deleted
Allowed (to_destination d) at l =
    InOrder at l
    × (l.status ≢ deleted)
    × (Destination.is_zero d ≡ false)
    × (l.destination.value ≢ d.value)
Allowed (to_expiration e) at l =
    InOrder at l × (l.status ≢ deleted) × (is_zero e ≡ false) × (at < e) × (l.expires_at ≢ some e)
Allowed to_no_expiration at l = InOrder at l × (l.status ≢ deleted) × (l.expires_at ≢ none)

-- The link after an allowed mutation.
abbrev pub changed : Mutation → Link → Link
changed to_disabled l = record l { status = disabled }
changed to_active l = record l { status = active }
changed to_deleted l = record l { status = deleted }
changed (to_destination d) l = record l { destination = d }
changed (to_expiration e) l = record l { expires_at = some e }
changed to_no_expiration l = record l { expires_at = none }

abbrev pub stamped : Time → Link → Link
stamped at l = record l { updated_at = at; version = (l.version + 1) % uint64_mod }

abbrev pub outcome : Result (Unit {0}) → Link → Link → Link
outcome (ok done) after before = after
outcome (err e) after before = before

in_order : (at : Time) (l : Link) → validate_mutation_time l at ≡ ok tt → InOrder at l
unfolding validate_mutation_time
in_order at l h = (ground arith, ground arith, ground arith)

allowed : (m : Mutation) (at : Time) (l : Link) → (mutate m at l).0 ≡ ok tt → Allowed m at l
unfolding mutate validate_mutation_time same
allowed to_disabled at l h =
    (in_order at l (ground arith), (can_transition_to_iff l.status disabled).0 (ground arith))
allowed to_active at l h =
    (in_order at l (ground arith), (can_transition_to_iff l.status active).0 (ground arith))
allowed to_deleted at l h =
    (in_order at l (ground arith), (can_transition_to_iff l.status deleted).0 (ground arith))
allowed (to_destination d) at l h = (
  in_order at l (ground arith),
  λ e. ground arith,
  ground arith,
  λ e. ground (arith, text_eq_iff l.destination.value d.value),
)
allowed (to_expiration e) at l h =
    (in_order at l (ground arith), λ q. ground arith, ground arith, ground arith, λ q. ground arith)
allowed to_no_expiration at l h =
    (in_order at l (ground arith), λ q. ground arith, λ q. ground arith)

accepted : (m : Mutation) (at : Time) (l : Link) → Allowed m at l → (mutate m at l).0 ≡ ok tt
unfolding mutate validate_mutation_time same
accepted to_disabled at l h = ground (arith, (can_transition_to_iff l.status disabled).1 h.1)
accepted to_active at l h = ground (arith, (can_transition_to_iff l.status active).1 h.1)
accepted to_deleted at l h = ground (arith, (can_transition_to_iff l.status deleted).1 h.1)
accepted (to_destination d) at l h = ground (arith, text_eq_iff l.destination.value d.value)
accepted (to_expiration e) at l h = ground arith
accepted to_no_expiration at l h = ground arith

-- A mutation succeeds exactly if it is allowed.
pub mutate_ok_iff :
    (m : Mutation) (at : Time) (l : Link) → ((mutate m at l).0 ≡ ok tt) ↔ Allowed m at l
mutate_ok_iff m at l = (allowed m at l, accepted m at l)

-- A mutation that succeeds changes its own field, stamps the time and moves the version on; one
-- that fails leaves the link as it was.
pub mutate_effect :
    (m : Mutation) (at : Time) (l : Link)
    → (mutate m at l).1 ≡ outcome (mutate m at l).0 (stamped at (changed m l)) l
unfolding mutate
mutate_effect to_disabled at l = ground arith
mutate_effect _ at l = ground arith

unfoldable pub run : List (Mutation × Time) → Link → Link
run [] l = l
run ((m, at) ∷ rest) l = run rest (mutate m at l).1

-- A deleted link refuses every mutation.
mutate_deleted : (m : Mutation) (at : Time) (l : Link) → l.status ≡ deleted → (mutate m at l).1 ≡ l
unfolding mutate Status.can_transition_to
mutate_deleted to_disabled at l d = ground arith
mutate_deleted _ at l d = ground arith

-- No sequence of mutations changes a deleted link in any field.
pub run_deleted : (ms : List (Mutation × Time)) (l : Link) → l.status ≡ deleted → run ms l ≡ l
unfolding run
run_deleted [] l d = refl
run_deleted ((m, at) ∷ rest) l d =
    cc (ap (run rest) (mutate_deleted m at l d), run_deleted rest l d)

-- A mutation moves the version on by one exactly if it changes the link.
mutate_version :
    (m : Mutation) (at : Time) (l : Link)
    → l.version + 1 < uint64_mod
    → ((mutate m at l).1 ≡ l) ⊎ ((mutate m at l).1.version ≡ l.version + 1)
unfolding mutate
mutate_version to_disabled at l bound = ground arith
mutate_version _ at l bound = ground arith

-- Versions never fall, and rise by one for each mutation at most.
run_version-le :
    (ms : List (Mutation × Time)) (l : Link)
    → l.version + length ms < uint64_mod
    → (l.version ≤ (run ms l).version) × ((run ms l).version ≤ l.version + length ms)
unfolding run
run_version-le [] l bound = (omega arith, omega arith)
run_version-le ((m, at) ∷ rest) l bound = elim (mutate_version m at l (omega arith)) [
  | inl e ↦
      let same = ap (λ k. (run rest k).version) e in
      let ih = run_version-le rest l (omega arith) in (omega arith, omega arith)
  | inr e ↦
      let ih = run_version-le rest (mutate m at l).1 (omega arith) in (omega arith, omega arith)
]

-- Optimistic locking is sound: if the version is the same after a sequence of mutations, then no
-- field of the link has changed.
pub run_same_version :
    (ms : List (Mutation × Time)) (l : Link)
    → l.version + length ms < uint64_mod
    → (run ms l).version ≡ l.version
    → run ms l ≡ l
unfolding run
run_same_version [] l bound h = refl
run_same_version ((m, at) ∷ rest) l bound h = elim (mutate_version m at l (omega arith)) [
  | inl e ↦
      ap (run rest) e
      ∙ run_same_version rest l (omega arith) (ap (λ k. (run rest k).version) (sym e) ∙ h)
  | inr e ↦ absurd (omega (arith, run_version-le rest (mutate m at l).1 (omega arith)))
]

-- Every link that a valid link is taken to by mutations is valid, while versions do not wrap.
pub run-IsValid :
    (ms : List (Mutation × Time)) (l : Link)
    → l.version + length ms < uint64_mod
    → IsValid l
    → IsValid (run ms l)
unfolding run
run-IsValid [] l bound v = v
run-IsValid ((m, at) ∷ rest) l bound v =
    run-IsValid rest (mutate m at l).1
      (elim (mutate_version m at l (omega arith)) [
        | inl e ↦ rw e (omega arith)
        | inr e ↦ omega arith
      ])
      (mutate-IsValid m at l (omega arith) v)
