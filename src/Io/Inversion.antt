-- ===== src/Io/Inversion.antt =====
-- What follows from the outcome of an action that runs one action after another.
use url_shortner.Prelude.{ap, ◌≡◌, ◌⊎◌, inl, inr, refl, arith}
use url_shortner.Errors.{Error, Result, ok, err, wrap}
use url_shortner.Io.{Io, continue, ◌>>=◌}

pub wrap-ok : {A : Type 0} (r : Result A) {a : A} → wrap r ≡ ok a → r ≡ ok a
wrap-ok (ok b) h = h
wrap-ok (err e) h = absurd (ground arith)

module _ {S A B : Type 0} where
  continue-ok :
      (r : Result A) (f : A → Io S B) (s : S) {b : B}
      → (continue r f s).0 ≡ ok b
      → (a : A) × (r ≡ ok a) × ((f a s).0 ≡ ok b) × ((continue r f s).1 ≡ (f a s).1)
  continue-ok (ok a) f s h = (a, refl, h, refl)
  continue-ok (err e) f s h = absurd (ground arith)

  pub bind-ok :
      (m : Io S A) (f : A → Io S B) (s : S) {b : B}
      → ((m >>= f) s).0 ≡ ok b
      → (a : A) × ((m s).0 ≡ ok a) × ((f a (m s).1).0 ≡ ok b) × (((m >>= f) s).1 ≡ (f a (m s).1).1)
  bind-ok m f s h = continue-ok (m s).0 f (m s).1 h

  continue-err :
      (r : Result A) (f : A → Io S B) (s : S) {e : Error}
      → (continue r f s).0 ≡ err e
      → ((r ≡ err e) × ((continue r f s).1 ≡ s))
        ⊎ ((a : A) × (r ≡ ok a) × ((f a s).0 ≡ err e) × ((continue r f s).1 ≡ (f a s).1))
  continue-err (ok a) f s h = inr (a, refl, h, refl)
  continue-err (err e') f s h = inl (cc, refl)

  pub bind-err :
      (m : Io S A) (f : A → Io S B) (s : S) {e : Error}
      → ((m >>= f) s).0 ≡ err e
      → (((m s).0 ≡ err e) × (((m >>= f) s).1 ≡ (m s).1))
        ⊎ ((a : A) × ((m s).0 ≡ ok a)
            × ((f a (m s).1).0 ≡ err e)
            × (((m >>= f) s).1 ≡ (f a (m s).1).1))
  bind-err m f s h = continue-err (m s).0 f (m s).1 h

  -- An action that succeeds hands its value and its state on.
  pub bind_of_ok :
      (m : Io S A) (f : A → Io S B) (s : S) {a : A} → (m s).0 ≡ ok a → (m >>= f) s ≡ f a (m s).1
  bind_of_ok m f s h = ap (λ (r : Result A). continue r f (m s).1) h
