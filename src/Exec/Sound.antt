-- ===== src/Exec/Sound.antt =====
-- Actions that do not end in a given fault.
use nfsclient.Base.{◌≢◌}
use nfsclient.Errors.{Result, ok, err, fault, Exception, Fault}
use nfsclient.Exec.{Exec, pure, raise, lift, continue, ◌>>=◌}

pub record Sound {S A : Type 0} (x : Fault) (m : Exec S A) : Type 0 where
  pub at : (s : S) → (m s).0 ≢ fault x

module _ {S A : Type 0} {x : Fault} where
  pub Sound-pure : (a : A) → Sound {S = S} x (pure a)
  Sound-pure a = record { at = λ s. cc }

  pub Sound-raise : (e : Exception) → Sound {S = S} {A = A} x (raise e)
  Sound-raise e = record { at = λ s. cc }

  pub Sound-lift : (r : Result A) → r ≢ fault x → Sound {S = S} x (lift r)
  Sound-lift r h = record { at = λ s. h }

module _ {S A B : Type 0} {x : Fault} where
  continue-ne-fault :
      (r : Result A) (f : A → Exec S B) (s : S)
      → r ≢ fault x
      → ((a : A) → Sound x (f a))
      → (continue r f s).0 ≢ fault x
  continue-ne-fault (ok a) f s h k = (k a).at s
  continue-ne-fault (err e) f s h k = cc
  continue-ne-fault (fault y) f s h k = λ e. h (cc)

  pub Sound-bind :
      (m : Exec S A) (f : A → Exec S B) → Sound x m → ((a : A) → Sound x (f a)) → Sound x (m >>= f)
  unfolding ◌>>=◌
  Sound-bind m f sm sf = record { at = λ s. continue-ne-fault (m s).0 f (m s).1 (sm.at s) sf }
