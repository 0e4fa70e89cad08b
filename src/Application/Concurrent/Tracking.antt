-- ===== src/Application/Concurrent/Tracking.antt =====
-- What a request in progress knows of the table of links while others change it.
use url_shortner.Prelude.{◌<◌, ◌≡◌, ◌≢◌, ◌∙◌, sym, ap, inl, inr, some, arith, false}
use url_shortner.Text.{is_empty}
use url_shortner.Errors.{ok, err}
use url_shortner.Net.{UrlLib}
use url_shortner.Domain.Link.{Link}
use url_shortner.Ports.Laws.{Table}
use url_shortner.Application.Management.Change.{ChangeRequest, code_of, owner_of, version_of}
use url_shortner.Application.Management.Parts.{Owned, Makes}
use url_shortner.Application.Concurrent.{Phase, waiting, holding, ready, finished}
use url_shortner.Application.Concurrent.Growth.{Later-above, Later, Later-trans, Grows}

-- The link that a request found is still stored, or one with a higher version is.
pub record Tracked (t : Table) (r : ChangeRequest) (l : Link) : Type 0 where
  pub stored : Link
  pub here : t (code_of r) ≡ some stored
  pub later : Later l stored
  pub keyed : l.code ≡ code_of r
  pub caller : is_empty (owner_of r) ≡ false
  pub owned : l.owner_id ≡ owner_of r
  pub current : l.version ≡ version_of r
  pub versioned : version_of r ≢ 0

-- What is true of a request in each phase.
unfoldable pub Sees : UrlLib → Table → ChangeRequest → Phase → Type 0
Sees lib t r waiting = Unit
Sees lib t r (holding l) = Tracked t r l
Sees lib t r (ready new) = (old : Link) × Tracked t r old × Makes lib r old new
Sees lib t r (finished (ok l)) =
    (stored : Link) × (t (code_of r) ≡ some stored) × (version_of r < stored.version)
Sees lib t r (finished (err e)) = Unit

Tracked-Grows :
    {t t' : Table} (r : ChangeRequest) (l : Link) → Grows t t' → Tracked t r l → Tracked t' r l
Tracked-Grows r l grows tracked =
    let (stored, here, later) = grows (code_of r) tracked.stored tracked.here in
    record {
      stored = stored;
      here = here;
      later = Later-trans l tracked.stored stored tracked.later later;
      keyed = tracked.keyed;
      caller = tracked.caller;
      owned = tracked.owned;
      current = tracked.current;
      versioned = tracked.versioned;
    }

pub Sees-Grows :
    (lib : UrlLib) {t t' : Table} (r : ChangeRequest) (p : Phase)
    → Grows t t'
    → Sees lib t r p
    → Sees lib t' r p
unfolding Sees
Sees-Grows lib r waiting grows h = h
Sees-Grows lib r (holding l) grows h = Tracked-Grows r l grows h
Sees-Grows lib r (ready new) grows (old, h, made) = (old, Tracked-Grows r old grows h, made)
Sees-Grows lib r (finished (ok l)) grows (stored, here, up) =
    let (stored', here', later) = grows (code_of r) stored here in
    (stored', here', Later-above (version_of r) stored stored' later up)
Sees-Grows lib r (finished (err e)) grows h = h

-- The link that a request found, once its version is still the stored one, is the stored one.
pub Tracked-Owned :
    (t : Table) (r : ChangeRequest) (l held : Link)
    → Tracked t r l
    → t (code_of r) ≡ some held
    → held.version ≡ version_of r
    → Owned t (code_of r) (owner_of r) (version_of r) l
Tracked-Owned t r l held tracked here same =
    let met : some tracked.stored ≡ some held = sym tracked.here ∙ here in
    let same_link : tracked.stored ≡ held = cc in
    let version : tracked.stored.version ≡ version_of r =
      ap (λ (x : Link). x.version) same_link ∙ same in
    elim tracked.later [
      | inl is ↦ record {
        found = tracked.here ∙ ap some is;
        caller = tracked.caller;
        owned = tracked.owned;
        current = tracked.current;
        versioned = tracked.versioned;
      }
      | inr up ↦ absurd (let low = tracked.current in omega arith)
    ]
