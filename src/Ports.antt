-- ===== src/Ports.antt =====
-- internal/link/ports: the interfaces of the application, over the state of whatever implements
-- them. A context is what ctx.Err() gives while the call runs: nothing, or the error with which the
-- request was cancelled or timed out.
pub mod Laws
use url_shortner.Prelude.{ℕ, Option, none, some}
use url_shortner.Text.{Text}
use url_shortner.Time.{Time, Duration}
use url_shortner.Errors.{Error, Result, ok, err}
use url_shortner.Io.{Io}
use url_shortner.Domain.Link.{Link}
use url_shortner.Domain.Mapping.{RedirectMapping}

abbrev pub Context : Type 0
Context = Option Error

-- `if err := ctx.Err(); err != nil { return err }`
abbrev pub context_error : Context → Result (Unit {0})
context_error none = ok tt
context_error (some e) = err e

pub record LinkRepository (S : Type 0) : Type 0 where
  pub insert : Context → Link → Io S (Unit {0})
  pub find_by_code : Context → Text → Io S Link
  pub update : Context → Link → ℕ → Io S (Unit {0})

pub record Clock (S : Type 0) : Type 0 where
  pub now : S → Time × S

-- `clock.Now()`
abbrev pub current_time : {S : Type 0} → Clock S → Io S Time
current_time clock s = let (t, s') = clock.now s in (ok t, s')

pub record CodeGenerator (S : Type 0) : Type 0 where
  pub generate : Context → Io S Text

pub record IdempotencyStore (S : Type 0) : Type 0 where
  pub get : Context → Text → Text → Io S Link
  pub save : Context → Text → Text → Link → Io S (Unit {0})

pub record LinkResolver (S : Type 0) : Type 0 where
  pub resolve : Context → Text → Io S RedirectMapping

pub record RedirectCache (S : Type 0) : Type 0 where
  pub get : Context → Text → Io S RedirectMapping
  pub put_if_newer : Context → RedirectMapping → Duration → Io S (Unit {0})
