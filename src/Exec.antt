-- ===== src/Exec.antt =====
-- Actions on a state that may throw. What was done before an exception stays done, so the state
-- comes back beside the error too.
pub mod Sound
use nfsclient.Base.{◌≡◌, refl}
use nfsclient.Errors.{Result, ok, err, fault, Exception}

abbrev pub Exec {ℓ} : Type ℓ → Type ℓ → Type ℓ
Exec S A = S → Result A × S

module _ {ℓ} {S A : Type ℓ} where
  abbrev pub pure : A → Exec S A
  pure a s = (ok a, s)

  abbrev pub raise : Exception → Exec S A
  raise e s = (err e, s)

  abbrev pub lift : Result A → Exec S A
  lift r s = (r, s)

module _ {ℓ} {S A B : Type ℓ} where
  abbrev pub continue : Result A → (A → Exec S B) → Exec S B
  continue (ok a) f s = f a s
  continue (err e) f s = (err e, s)
  continue (fault x) f s = (fault x, s)

  infixl 10 ◌>>=◌ ◌>>◌
  unfoldable pub ◌>>=◌ : Exec S A → (A → Exec S B) → Exec S B
  ◌>>=◌ m f s = let (r, s') = m s in continue r f s'

  abbrev pub ◌>>◌ : Exec S A → Exec S B → Exec S B
  m >> n = m >>= λ _. n

  -- A sequence goes on with how its first action ended.
  pub bind-continue :
      (m : Exec S A) (f : A → Exec S B) (s s' : S) (r : Result A)
      → m s ≡ (r, s')
      → (m >>= f) s ≡ continue r f s'
  unfolding ◌>>=◌
  bind-continue m f s s' r e = rw e refl

  -- The action behind one that returned.
  pub bind-ok :
      (m : Exec S A) (f : A → Exec S B) (s s' : S) (a : A) → m s ≡ (ok a, s') → (m >>= f) s ≡ f a s'
  unfolding ◌>>=◌
  bind-ok m f s s' a e = rw e

  -- An exception ends the sequence.
  pub bind-err :
      (m : Exec S A) (f : A → Exec S B) (s s' : S) (x : Exception)
      → m s ≡ (err x, s')
      → (m >>= f) s ≡ (err x, s')
  unfolding ◌>>=◌
  bind-err m f s s' x e = rw e
