-- ===== src/Application/Concurrent/Winner.antt =====
-- Of concurrent requests with one code and one expected version, at most one is answered with a link.
use mathlib.Core.Path.{subst}
use mathlib.Core.List.{Memᴰ}
use mathlib.Core.List.Memᴰ
use url_shortner.Prelude.{◌≢◌, ℕ, ◌<◌, ◌+◌, ◌≡◌, ◌∙◌, sym, ap, inl, inr, some, arith, List}
use url_shortner.Time.{uint64_mod}
use url_shortner.Errors.{ok}
use url_shortner.Net.{UrlLib}
use url_shortner.Domain.Link.{Link}
use url_shortner.Ports.{Context, LinkRepository, Clock}
use url_shortner.Ports.Laws.{Table, written, RepositoryLaws, ClockLaws}
use url_shortner.Application.Management.Change.{ChangeRequest, code_of, owner_of, version_of}
use url_shortner.Application.Management.Parts.{Owned, Makes}
use url_shortner.Application.Concurrent.{waiting, finished, System, Event, run}
use url_shortner.Application.Concurrent.Growth.{
  Later-above, IsKeyed, Grows, written-IsKeyed, insert-Grows,
}
use url_shortner.Application.Concurrent.Calls.{next_link, served-Grows}
use url_shortner.Application.Concurrent.Serial.{
  Serves, IsSerial, Serial, idle, skipped, creation, served,
}
use url_shortner.Application.Concurrent.Schedules.{run-IsSerial}
use url_shortner.Application.Management.Locking.{written_self}

module _ (lib : UrlLib) (request : ℕ → Context × ChangeRequest)
    (bound : (i : ℕ) → version_of (request i).1 + 1 < uint64_mod) where
  -- The version under the code of request `i` is past the one that it expects.
  abbrev Passed : ℕ → Table → Type 0
  Passed i t =
      let r = (request i).1 in
      (stored : Link) × (t (code_of r) ≡ some stored) × (version_of r < stored.version)

  Passed-Grows : (i : ℕ) (t t' : Table) → Grows t t' → Passed i t → Passed i t'
  Passed-Grows i t t' grows (stored, here, up) =
      let (stored', here', later) = grows (code_of (request i).1) stored here in
      (stored', here', Later-above (version_of (request i).1) stored stored' later up)

  Passed-Served :
      (i : ℕ) (t : Table) (old : Link)
      → Passed i t
      → (let r = (request i).1 in Owned t (code_of r) (owner_of r) (version_of r) old)
      → ⊥
  Passed-Served i t old (stored, here, up) owned =
      let met : some stored ≡ some old = sym here ∙ owned.found in
      let same : stored ≡ old = cc in
      let version : stored.version ≡ version_of (request i).1 =
        ap (λ (l : Link). l.version) same ∙ owned.current in
      omega arith

  -- A request whose version is passed is never served.
  too_late :
      (i : ℕ) (l : Link) {events : List Event} {t t' : Table} {created : List Link}
      {log : List (ℕ × Link)}
      → Serial lib request events t created log t'
      → IsKeyed t
      → Passed i t
      → ¬ (Memᴰ (i, l) log)
  too_late i l idle keyed passed m = Memᴰ.not-nil m
  too_late i l (skipped e rest) keyed passed m = too_late i l rest keyed passed m
  too_late i l {t = t} (creation ctx k free rest) keyed passed m =
      too_late i l rest (written-IsKeyed t k keyed)
        (Passed-Grows i t (written k t) (insert-Grows t k free) passed) m
  too_late i l {t = t} (served j old new (owned, made) unique rest) keyed passed m = elim m [
    | Memᴰ.head e ↦
        Passed-Served j t old (subst (λ (k : ℕ). Passed k t) (ap (λ (x : ℕ × Link). x.0) e) passed)
          owned
    | Memᴰ.tail m' ↦
        too_late i l rest (written-IsKeyed t new keyed)
          (Passed-Grows i t (written new t)
            (served-Grows lib t (request j).1 old new keyed (bound j) owned made) passed)
          m'
  ]

  Served-Passed :
      (i : ℕ) (t : Table) (old new : Link)
      → IsKeyed t
      → (let r = (request i).1 in Owned t (code_of r) (owner_of r) (version_of r) old)
      → Makes lib (request i).1 old new
      → Passed i (written new t)
  Served-Passed i t old new keyed owned made =
      let (code, up) = next_link lib t (request i).1 old new keyed (bound i) owned made in
      (new, written_self t new (code_of (request i).1) code, up)

  abbrev pub Rivals : ℕ → ℕ → Type 0
  Rivals i j =
      (code_of (request i).1 ≡ code_of (request j).1)
      × (version_of (request i).1 ≡ version_of (request j).1)

  Rivals-Passed : (i j : ℕ) (t : Table) → Rivals i j → Passed i t → Passed j t
  Rivals-Passed i j t (code, version) (stored, here, up) =
      (stored, ap t (sym code) ∙ here, subst (λ (n : ℕ). n < stored.version) version up)

  -- Once request `k` is served, no rival of it is.
  shut_out :
      (i j k : ℕ) (l' old new : Link) {events : List Event} {t t' : Table} {created : List Link}
      {log : List (ℕ × Link)}
      → Rivals i j
      → k ≡ i
      → IsKeyed t
      → Serves lib t (request k).1 old new
      → Serial lib request events (written new t) created log t'
      → ¬ (Memᴰ (j, l') log)
  shut_out i j k l' old new {t = t} rivals is keyed (owned, made) rest m =
      too_late j l' rest (written-IsKeyed t new keyed)
        (Rivals-Passed i j (written new t) rivals (
          subst (λ (n : ℕ). Passed n (written new t)) is
            (Served-Passed k t old new keyed owned made)))
        m

  same_winner :
      (i j : ℕ) (l l' : Link) {events : List Event} {t t' : Table} {created : List Link}
      {log : List (ℕ × Link)}
      → Rivals i j
      → IsKeyed t
      → Serial lib request events t created log t'
      → Memᴰ (i, l) log
      → Memᴰ (j, l') log
      → i ≡ j
  same_winner i j l l' rivals keyed idle m m' = absurd (Memᴰ.not-nil m)
  same_winner i j l l' rivals keyed (skipped e rest) m m' =
      same_winner i j l l' rivals keyed rest m m'
  same_winner i j l l' {t = t} rivals keyed (creation ctx k free rest) m m' =
      same_winner i j l l' rivals (written-IsKeyed t k keyed) rest m m'
  same_winner i j l l' {t = t} rivals keyed (served k old new serves unique rest) m m' =
      let number : (a : ℕ) (x : Link) → ◌≡◌ {A = ℕ × Link} (a, x) (k, new) → k ≡ a =
        λ a x e. ap (λ (y : ℕ × Link). y.0) (sym e) in
      elim m [
        | Memᴰ.head e ↦ elim m' [
          | Memᴰ.head e' ↦ sym (number i l e) ∙ number j l' e'
          | Memᴰ.tail n' ↦
              absurd (shut_out i j k l' old new rivals (number i l e) keyed serves rest n')
        ]
        | Memᴰ.tail n ↦ elim m' [
          | Memᴰ.head e' ↦ absurd (
              shut_out j i k l old new (sym rivals.0, sym rivals.1) (number j l' e') keyed serves
                rest n)
          | Memᴰ.tail n' ↦ same_winner i j l l' rivals (written-IsKeyed t new keyed) rest n n'
        ]
      ]

module _ {S : Type 0} (repository : LinkRepository S) (clock : Clock S) (lib : UrlLib)
    {table : S → Table} (laws : RepositoryLaws repository table)
    (clock_laws : ClockLaws table clock) (request : ℕ → Context × ChangeRequest) where
  answered :
      (events : List Event) (c : System S) (i : ℕ) (l : Link)
      → ((j : ℕ) → c.phase j ≡ waiting)
      → (serial : IsSerial lib request table events c (run repository clock lib request events c))
      → (run repository clock lib request events c).phase i ≡ finished (ok l)
      → Memᴰ (i, l) serial.log
  answered events c i l waits serial e = elim ((serial.accounts i l).0 e) [
    | inl none_yet ↦
        let clash : waiting ≡ finished (ok l) = sym (waits i) ∙ none_yet in absurd (ground arith)
    | inr m ↦ m
  ]

  -- Whatever the schedule of change requests that have not begun, on a table where each link
  -- stands under its code, once one of two different requests that name one code and expect one
  -- version is answered with a link, the other one is not, as long as no expected version is the
  -- highest number of its width.
  pub run-one_winner :
      (events : List Event) (c : System S) (i j : ℕ) (l l' : Link)
      → ((k : ℕ) → version_of (request k).1 + 1 < uint64_mod)
      → IsKeyed (table c.shared)
      → ((k : ℕ) → c.phase k ≡ waiting)
      → i ≢ j
      → code_of (request i).1 ≡ code_of (request j).1
      → version_of (request i).1 ≡ version_of (request j).1
      → (run repository clock lib request events c).phase i ≡ finished (ok l)
      → (run repository clock lib request events c).phase j ≢ finished (ok l')
  run-one_winner events c i j l l' bound keyed waits apart code version done done' =
      let serial =
        run-IsSerial repository clock lib laws clock_laws request events c bound keyed waits in
      apart (
        same_winner lib request bound i j l l' (code, version) keyed serial.serial
          (answered events c i l waits serial done) (answered events c j l' waits serial done'))
