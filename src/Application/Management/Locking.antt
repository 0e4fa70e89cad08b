-- ===== src/Application/Management/Locking.antt =====
-- Versions under management requests: no lost updates, and a sound table of links.
use mathlib.Core.Path.{subst}
use url_shortner.Prelude.{
  ℕ, ◌+◌, ◌%◌, ◌<◌, ◌≡◌, ◌≢◌, ◌∙◌, sym, ap, Option, none, some, inl, inr, arith, Bool-cases,
}
use url_shortner.Text.{Text, text_eq, text_eq_iff}
use url_shortner.Time.{Time, uint64_mod}
use url_shortner.Errors.{Result-cases, ok}
use url_shortner.Net.{UrlLib}
use url_shortner.Domain.Status.{LinkStatus, unknown, active, disabled, deleted}
use url_shortner.Domain.Link.{Link}
use url_shortner.Domain.Link.Methods.{
  Mutation, to_active, to_disabled, to_deleted, to_destination, to_expiration, to_no_expiration,
  mutate,
}
use url_shortner.Domain.Link.Validity.{IsValid, mutate-IsValid}
use url_shortner.Ports.{Context, LinkRepository, Clock}
use url_shortner.Ports.Laws.{Table, written, RepositoryLaws, ClockLaws}
use url_shortner.Application.Management.{method_call, status_method, expiration_method}
use url_shortner.Application.Management.Change.{
  ChangeRequest, status, destination, expiration, code_of, version_of, change,
}
use url_shortner.Application.Management.Parts.{Makes}
use url_shortner.Application.Management.Outcome.{change_ok, change_err}

-- A method call that succeeds is a mutation of the link.
abbrev pub Mutates : Link → Link → Type 0
Mutates old new =
    (m : Mutation) × (at : Time) × ((mutate m at old).0 ≡ ok tt) × ((mutate m at old).1 ≡ new)

called :
    (m : Mutation) (at : Time) (old new : Link)
    → method_call (mutate m at) old ≡ ok new
    → Mutates old new
called m at old new h = (m, at, ground arith, ground arith)

status_Mutates :
    (s : LinkStatus) (now : Time) (old new : Link)
    → method_call (status_method s now) old ≡ ok new
    → Mutates old new
unfolding status_method mutate
status_Mutates active now old new h = called to_active now old new h
status_Mutates disabled now old new h = called to_disabled now old new h
status_Mutates deleted now old new h = called to_deleted now old new h
status_Mutates unknown now old new h = absurd (ground arith)

expiration_Mutates :
    (e : Option Time) (now : Time) (old new : Link)
    → method_call (expiration_method e now) old ≡ ok new
    → Mutates old new
unfolding expiration_method mutate
expiration_Mutates none now old new h = called to_no_expiration now old new h
expiration_Mutates (some e) now old new h = called (to_expiration e) now old new h

-- What a successful mutation does to the version and the code.
pub moved :
    (old new : Link)
    → Mutates old new
    → (new.version ≡ (old.version + 1) % uint64_mod) × (new.code ≡ old.code)
unfolding mutate
moved old new (to_disabled, at, done, e) = (ground arith, ground arith)
moved old new (_, at, done, e) = (ground arith, ground arith)

next_version-ne : (v : ℕ) → (v + 1) % uint64_mod ≢ v
next_version-ne v e = omega arith

-- Every link is valid and stands under its own code.
pub record IsSound (table : Table) : Type 0 where
  pub at_code : (c : Text) (l : Link) → table c ≡ some l → (l.code ≡ c) × IsValid l

written-IsSound : (table : Table) (l : Link) → IsSound table → IsValid l → IsSound (written l table)
written-IsSound table l sound v = record {
  at_code = λ c k e. elim (Bool-cases (text_eq l.code c)) [
    | inl same ↦
        let written_here : some l ≡ some k = rw same at e in
        let same_link : l ≡ k = cc in
        subst (λ (x : Link). (x.code ≡ c) × IsValid x) same_link ((text_eq_iff l.code c).0 same, v)
    | inr other ↦ sound.at_code c k (rw other at e)
  ];
}

pub written_self : (table : Table) (l : Link) (c : Text) → l.code ≡ c → written l table c ≡ some l
written_self table l c e = ground (arith, text_eq_iff l.code c)

pub Makes-Mutates :
    (lib : UrlLib) (r : ChangeRequest) (old new : Link) → Makes lib r old new → Mutates old new
Makes-Mutates lib (status r) old new (now, h) = status_Mutates r.status now old new h
Makes-Mutates lib (destination r) old new (now, d, _, h) =
    called (to_destination d) now old new (unfold mutate in h)
Makes-Mutates lib (expiration r) old new (now, h) = expiration_Mutates r.expires_at now old new h

module _ {S : Type 0} (repository : LinkRepository S) (clock : Clock S) (lib : UrlLib)
    {table : S → Table} (laws : RepositoryLaws repository table)
    (clock_laws : ClockLaws table clock) where
  -- A change that succeeds on a sound table returns a link under the requested code with the next
  -- version.
  pub change_next_version :
      (ctx : Context) (r : ChangeRequest) (s : S) (l : Link)
      → IsSound (table s)
      → (change repository clock lib ctx r s).0 ≡ ok l
      → (l.version ≡ (version_of r + 1) % uint64_mod) × (l.code ≡ code_of r)
  change_next_version ctx r s l sound h =
      let (old, owned, made, kept) = change_ok repository clock lib laws clock_laws ctx r s l h in
      let (version, code) = moved old l (Makes-Mutates lib r old l made) in
      (
        version ∙ ap (λ (v : ℕ). (v + 1) % uint64_mod) owned.current,
        code ∙ (sound.at_code (code_of r) old owned.found).0,
      )

  -- No lost update: once a change of a code has succeeded on a sound table, no other change of that
  -- code with the same expected version succeeds in the state that the first one left.
  pub no_lost_update :
      (ctx ctx' : Context) (r r' : ChangeRequest) (s : S) (l l' : Link)
      → IsSound (table s)
      → (change repository clock lib ctx r s).0 ≡ ok l
      → code_of r' ≡ code_of r
      → version_of r' ≡ version_of r
      → (change repository clock lib ctx' r' (change repository clock lib ctx r s).1).0 ≢ ok l'
  no_lost_update ctx ctx' r r' s l l' sound h same_code same_version h' =
      let s' = (change repository clock lib ctx r s).1 in
      let (old, owned, made, kept) = change_ok repository clock lib laws clock_laws ctx r s l h in
      let (next, code) = change_next_version ctx r s l sound h in
      let (old', owned', made', kept') =
        change_ok repository clock lib laws clock_laws ctx' r' s' l' h' in
      let held : table s' (code_of r') ≡ some l =
        (λ i. kept i (code_of r')) ∙ written_self (table s) l (code_of r') (code ∙ sym same_code) in
      let seen : some l ≡ some old' = sym held ∙ owned'.found in
      let same_link : l ≡ old' = cc in
      next_version-ne (version_of r)
        (sym next ∙ ap (λ (k : Link). k.version) same_link ∙ owned'.current ∙ same_version)

  -- A change, accepted or not, keeps the table sound, while the version it changes does not wrap.
  pub change-IsSound :
      (ctx : Context) (r : ChangeRequest) (s : S)
      → version_of r + 1 < uint64_mod
      → IsSound (table s)
      → IsSound (table (change repository clock lib ctx r s).1)
  change-IsSound ctx r s bound sound = elim (Result-cases (change repository clock lib ctx r s).0) [
    | inr (e, failed) ↦
        subst IsSound (sym (change_err repository clock lib laws clock_laws ctx r s e failed)) sound
    | inl (l, done) ↦
        let (old, owned, made, kept) =
          change_ok repository clock lib laws clock_laws ctx r s l done in
        let (m, at, accepted, new) = Makes-Mutates lib r old l made in
        let low : old.version + 1 < uint64_mod = rw owned.current bound in
        let valid = mutate-IsValid m at old low (sound.at_code (code_of r) old owned.found).1 in
        subst IsSound (sym kept) (written-IsSound (table s) l sound (subst IsValid new valid))
  ]
