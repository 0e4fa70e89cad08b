-- ===== src/Application/Concurrent/Serial.antt =====
-- Concurrent management requests do what the same requests do one at a time: each that is answered
-- with a link acts on the table of links at one moment, whole.
use mathlib.Core.Path.{subst}
use mathlib.Core.List.{Memᴰ, append-nil, append_assoc}
use mathlib.Core.List.Memᴰ
use url_shortner.Prelude.{
  ◌↔◌, ℕ, ◌≡◌, ◌≢◌, ◌∙◌, sym, ap, ◌⊎◌, inl, inr, refl, none, arith, Bool-cases, ◌==◌, List, [], ◌∷◌,
  ◌++◌,
}
use url_shortner.Errors.{ok}
use url_shortner.Net.{UrlLib}
use url_shortner.Domain.Link.{Link}
use url_shortner.Ports.{Context}
use url_shortner.Ports.Laws.{Table, written}
use url_shortner.Application.Management.Change.{ChangeRequest, code_of, owner_of, version_of}
use url_shortner.Application.Management.Parts.{Owned, Makes}
use url_shortner.Application.Concurrent.{
  Phase, ready, finished, System, Event, turn, creates, update_phase,
}

-- The link `old`, that the request names, is stored, and the request makes `new` of it.
abbrev pub Serves : UrlLib → Table → ChangeRequest → Link → Link → Type 0
Serves lib t r old new = Owned t (code_of r) (owner_of r) (version_of r) old × Makes lib r old new

-- The events of a schedule one at a time, each with no effect or with its whole effect: an insertion
-- writes its link on a free code, and a turn serves its request. The first list holds the links that
-- are inserted, the second one the numbers of the requests that are served and the links that they
-- return, both in order.
pub data Serial (lib : UrlLib) (request : ℕ → Context × ChangeRequest)
    : List Event → Table → List Link → List (ℕ × Link) → Table → Type 0 where
  idle : {t : Table} → Serial lib request [] t [] [] t
  skipped :
      {events : List Event} {t t' : Table} {created : List Link} {log : List (ℕ × Link)} (e : Event)
      → Serial lib request events t created log t'
      → Serial lib request (e ∷ events) t created log t'
  creation :
      {events : List Event} {t t' : Table} {created : List Link} {log : List (ℕ × Link)}
      (ctx : Context) (l : Link)
      → t l.code ≡ none
      → Serial lib request events (written l t) created log t'
      → Serial lib request (creates ctx l ∷ events) t (l ∷ created) log t'
  served :
      {events : List Event} {t t' : Table} {created : List Link} {log : List (ℕ × Link)} (i : ℕ)
      (old new : Link)
      → Serves lib t (request i).1 old new
      → ((l : Link) → ¬ (Memᴰ (i, l) log))
      → Serial lib request events (written new t) created log t'
      → Serial lib request (turn i ∷ events) t created ((i, new) ∷ log) t'

-- What one event does to the table, to the answers and to the list of insertions.
pub data Moves (lib : UrlLib) (request : ℕ → Context × ChangeRequest) (t : Table)
    (phase : ℕ → Phase) (links : List Link) (t' : Table) (phase' : ℕ → Phase) (links' : List Link)
    : Event → Type 0 where
  still :
      (e : Event)
      → t' ≡ t
      → ((j : ℕ) (l : Link) → (phase' j ≡ finished (ok l)) ↔ (phase j ≡ finished (ok l)))
      → links' ≡ links
      → Moves lib request t phase links t' phase' links' e
  fresh :
      (ctx : Context) (l : Link)
      → t l.code ≡ none
      → t' ≡ written l t
      → phase' ≡ phase
      → links' ≡ links ++ l ∷ []
      → Moves lib request t phase links t' phase' links' (creates ctx l)
  whole :
      (i : ℕ) (old new : Link)
      → Serves lib t (request i).1 old new
      → t' ≡ written new t
      → phase i ≡ ready new
      → phase' ≡ update_phase phase i (finished (ok new))
      → links' ≡ links
      → Moves lib request t phase links t' phase' links' (turn i)

pub update_phase_cases :
    (phase : ℕ → Phase) (i : ℕ) (p : Phase) (j : ℕ)
    → ((i ≡ j) × (update_phase phase i p j ≡ p)) ⊎ ((i ≢ j) × (update_phase phase i p j ≡ phase j))
update_phase_cases phase i p j = elim (Bool-cases (i == j)) [
  | inl same ↦ inl (ground arith, rw same refl)
  | inr other ↦ inr (ground arith, rw other refl)
]

abbrev SameEntry : ℕ × Link → ℕ × Link → Type 0
SameEntry e e' = e ≡ e'

-- The requests that are answered once the ready request `i` is.
answered_lem :
    (phase : ℕ → Phase) (i : ℕ) (new : Link) (j : ℕ) (l : Link)
    → phase i ≡ ready new
    → (update_phase phase i (finished (ok new)) j ≡ finished (ok l))
      ↔ ((phase j ≡ finished (ok l)) ⊎ SameEntry (j, l) (i, new))
answered_lem phase i new j l was = elim (update_phase_cases phase i (finished (ok new)) j) [
  | inl (same, there) ↦ (
    λ h.
        let met : finished (ok new) ≡ finished (ok l) = sym there ∙ h in
        let link : new ≡ l = cc in inr cc,
    λ h. elim h [
      | inl g ↦
          let clash : ready new ≡ finished (ok l) = sym was ∙ ap phase same ∙ g in
          absurd (ground arith)
      | inr e ↦ there ∙ ap (λ (x : ℕ × Link). finished (ok x.1)) (sym e)
    ],
  )
  | inr (other, there) ↦ (
    λ h. inl (sym there ∙ h),
    λ h. elim h [ inl g ↦ there ∙ g | inr e ↦ absurd (other (ap (λ (x : ℕ × Link). x.0) (sym e))) ],
  )
]

module _ {S : Type 0} (lib : UrlLib) (request : ℕ → Context × ChangeRequest)
    (table : S → Table) where
  -- The events, one at a time, lead from one state to another. The insertions are exactly those that
  -- were answered without an error in between, in order, and the log holds exactly the requests that
  -- were answered with a link in between, each of them once.
  pub record IsSerial (events : List Event) (c final : System S) : Type 0 where
    pub created : List Link
    pub log : List (ℕ × Link)
    pub serial : Serial lib request events (table c.shared) created log (table final.shared)
    pub inserts : final.inserted ≡ c.inserted ++ created
    pub accounts :
        (i : ℕ) (l : Link)
        → (final.phase i ≡ finished (ok l)) ↔ ((c.phase i ≡ finished (ok l)) ⊎ Memᴰ (i, l) log)
    pub once : (i : ℕ) (l l' : Link) → Memᴰ (i, l) log → c.phase i ≢ finished (ok l')

  pub IsSerial-refl : (c : System S) → IsSerial [] c c
  IsSerial-refl c = record {
    created = [];
    log = [];
    serial = idle;
    inserts = sym (append-nil c.inserted);
    accounts = λ i l. (λ h. inl h, λ h. elim h [ inl h ↦ h | inr m ↦ absurd (Memᴰ.not-nil m) ]);
    once = λ i l l' m. absurd (Memᴰ.not-nil m);
  }

  still_lem :
      (events : List Event) (e : Event) (c c' final : System S)
      → table c'.shared ≡ table c.shared
      → ((j : ℕ) (l : Link) → (c'.phase j ≡ finished (ok l)) ↔ (c.phase j ≡ finished (ok l)))
      → c'.inserted ≡ c.inserted
      → IsSerial events c' final
      → IsSerial (e ∷ events) c final
  still_lem events e c c' final same phases links h = record {
    created = h.created;
    log = h.log;
    serial = skipped e (
        subst (λ (t : Table). Serial lib request events t h.created h.log (table final.shared)) same
          h.serial);
    inserts = h.inserts ∙ ap (λ (k : List Link). k ++ h.created) links;
    accounts = λ i l. (
      λ f. elim ((h.accounts i l).0 f) [ inl g ↦ inl ((phases i l).0 g) | inr m ↦ inr m ],
      λ f. (h.accounts i l).1 (elim f [ inl g ↦ inl ((phases i l).1 g) | inr m ↦ inr m ]),
    );
    once = λ i l l' m f. h.once i l l' m ((phases i l').1 f);
  }

  fresh_lem :
      (events : List Event) (c c' final : System S) (ctx : Context) (l : Link)
      → table c.shared l.code ≡ none
      → table c'.shared ≡ written l (table c.shared)
      → c'.phase ≡ c.phase
      → c'.inserted ≡ c.inserted ++ l ∷ []
      → IsSerial events c' final
      → IsSerial (creates ctx l ∷ events) c final
  fresh_lem events c c' final ctx l free kept phases links h = record {
    created = l ∷ h.created;
    log = h.log;
    inserts =
        h.inserts
        ∙ ap (λ (k : List Link). k ++ h.created) links
        ∙ append_assoc c.inserted (l ∷ []) h.created;
    serial = creation ctx l free (
        subst (λ (t : Table). Serial lib request events t h.created h.log (table final.shared)) kept
          h.serial);
    accounts =
        subst
          (λ (p : ℕ → Phase).
            (i : ℕ) (k : Link)
            → (final.phase i ≡ finished (ok k)) ↔ ((p i ≡ finished (ok k)) ⊎ Memᴰ (i, k) h.log))
          phases h.accounts;
    once =
        subst
          (λ (p : ℕ → Phase). (i : ℕ) (k k' : Link) → Memᴰ (i, k) h.log → p i ≢ finished (ok k'))
          phases h.once;
  }

  whole_lem :
      (events : List Event) (c c' final : System S) (i : ℕ) (old new : Link)
      → Serves lib (table c.shared) (request i).1 old new
      → table c'.shared ≡ written new (table c.shared)
      → c.phase i ≡ ready new
      → c'.phase ≡ update_phase c.phase i (finished (ok new))
      → c'.inserted ≡ c.inserted
      → IsSerial events c' final
      → IsSerial (turn i ∷ events) c final
  whole_lem events c c' final i old new serves kept was phases links h =
      let answered : (j : ℕ) (l : Link)
          → (c'.phase j ≡ finished (ok l))
            ↔ ((c.phase j ≡ finished (ok l)) ⊎ SameEntry (j, l) (i, new)) =
        subst
          (λ (p : ℕ → Phase).
            (j : ℕ) (l : Link)
            → (p j ≡ finished (ok l)) ↔ ((c.phase j ≡ finished (ok l)) ⊎ SameEntry (j, l) (i, new)))
          (sym phases) (λ j l. answered_lem c.phase i new j l was) in
      record {
        created = h.created;
        log = (i, new) ∷ h.log;
        inserts = h.inserts ∙ ap (λ (k : List Link). k ++ h.created) links;
        serial =
            served i old new serves (λ l m. h.once i l new m ((answered i new).1 (inr refl)))
              (subst
                (λ (t : Table). Serial lib request events t h.created h.log (table final.shared))
                kept h.serial);
        accounts = λ j l. (
          λ f. elim ((h.accounts j l).0 f) [
            | inl g ↦ elim ((answered j l).0 g) [ inl g' ↦ inl g' | inr e ↦ inr (Memᴰ.head e) ]
            | inr m ↦ inr (Memᴰ.tail m)
          ],
          λ f. (h.accounts j l).1 (elim f [
            | inl g ↦ inl ((answered j l).1 (inl g))
            | inr m ↦ elim m [
              | Memᴰ.head e ↦ inl ((answered j l).1 (inr e))
              | Memᴰ.tail m' ↦ inr m'
            ]
          ]),
        );
        once = λ j l l' m f. elim m [
          | Memᴰ.head e ↦
              let clash : ready new ≡ finished (ok l') =
                sym was ∙ ap (λ (x : ℕ × Link). c.phase x.0) (sym e) ∙ f in
              absurd (ground arith)
          | Memᴰ.tail m' ↦ h.once j l l' m' ((answered j l').1 (inl f))
        ];
      }

  pub Moves-IsSerial :
      (events : List Event) (e : Event) (c c' final : System S)
      → Moves lib request
          (table c.shared)
          c.phase
          c.inserted
          (table c'.shared)
          c'.phase
          c'.inserted
          e
      → IsSerial events c' final
      → IsSerial (e ∷ events) c final
  Moves-IsSerial events _ c c' final (still e same phases links) h =
      still_lem events e c c' final same phases links h
  Moves-IsSerial events _ c c' final (fresh ctx l free kept phases links) h =
      fresh_lem events c c' final ctx l free kept phases links h
  Moves-IsSerial events _ c c' final (whole i old new serves kept was phases links) h =
      whole_lem events c c' final i old new serves kept was phases links h
