-- ===== src/Io.antt =====
-- Go code with an early return on an error and a state that it changes: an action takes the state
-- and gives the result and the state as the code left it, also beside an error.
pub mod Inversion
use url_shortner.Errors.{Error, Result, ok, err, wrap}

abbrev pub Io {ℓ κ} : Type ℓ → Type κ → Type (ℓ ⊔ κ)
Io S A = S → Result A × S

module _ {ℓ κ} {S : Type ℓ} {A : Type κ} where
  abbrev pub pure : A → Io S A
  pure a s = (ok a, s)

  -- `return ..., err`
  abbrev pub raise : Error → Io S A
  raise e s = (err e, s)

  -- A call that touches no state.
  abbrev pub lift : Result A → Io S A
  lift r s = (r, s)

  -- `v, err := call()` with the error kept for a look.
  abbrev pub attempt : Io S A → Io S (Result A)
  attempt m s = let (r, s') = m s in (ok r, s')

-- A call with its error in fmt.Errorf and %w.
abbrev pub wrapping : {S A : Type 0} → Io S A → Io S A
wrapping m s = let (r, s') = m s in (wrap r, s')

-- `defer`: the action runs after the body, whatever its result.
abbrev pub deferring : {S A : Type 0} → (S → S) → Io S A → Io S A
deferring last m s = let (r, s') = m s in (r, last s')

-- The receiver or the state, read and assigned.
abbrev pub get {ℓ} : {S : Type ℓ} → Io S S
get s = (ok s, s)

abbrev pub assign {ℓ} : {S : Type ℓ} → (S → S) → Io S (Unit {0})
assign f s = (ok tt, f s)

module _ {ℓ κ μ} {S : Type ℓ} {A : Type κ} {B : Type μ} where
  abbrev pub continue : Result A → (A → Io S B) → Io S B
  continue (ok a) f s = f a s
  continue (err e) f s = (err e, s)

  infixl 5 ◌>>=◌ ◌>>◌
  abbrev pub ◌>>=◌ : Io S A → (A → Io S B) → Io S B
  ◌>>=◌ m f s = let (r, s') = m s in continue r f s'

  abbrev pub ◌>>◌ : Io S A → Io S B → Io S B
  m >> k = m >>= λ _. k
