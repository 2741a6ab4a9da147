-- ===== src/Base/Exec.antt =====
-- Python code that mutates state and may raise. What was written before an exception stays
-- written, so the state comes back beside the error too.
pub mod Keeps
use Prim.Native.String.{String}
use mathlib.Core.Path.{◌≡◌, refl}

-- An exception: `type(exc).__name__` and `str(exc)`.
pub record Error : Type 0 where
  pub kind : String
  pub message : String

pub data Result {ℓ} (A : Type ℓ) : Type ℓ where
  ok : A → Result A
  err : Error → Result A

abbrev pub Exec {ℓ} : Type ℓ → Type ℓ → Type ℓ
Exec S A = S → Result A × S

module _ {ℓ} {S A : Type ℓ} where
  unfoldable pub pure : A → Exec S A
  pure a s = (ok a, s)

  unfoldable pub raise : Error → Exec S A
  raise e s = (err e, s)

  unfoldable pub lift : Result A → Exec S A
  lift r s = (r, s)

  unfoldable pub gets : (S → A) → Exec S A
  gets f s = (ok (f s), s)

module _ {ℓ} {S A B : Type ℓ} where
  abbrev pub continue : Result A → (A → Exec S B) → Exec S B
  continue (ok a) f s = f a s
  continue (err e) f s = (err e, s)

  abbrev pub recover : Result A → (A → Exec S B) → (Error → Exec S B) → Exec S B
  recover (ok a) f h s = f a s
  recover (err e) f h s = h e s

  infixl 10 ◌>>=◌
  unfoldable pub ◌>>=◌ : Exec S A → (A → Exec S B) → Exec S B
  unfolding pure raise lift gets
  ◌>>=◌ first rest start = let (outcome, reached) = first start in continue outcome rest reached

  -- `try: a = m` / `except Exception as e: h(e)` / `else: f(a)`.
  unfoldable pub try_else : Exec S A → (A → Exec S B) → (Error → Exec S B) → Exec S B
  unfolding pure raise lift gets
  try_else m f h s = let (r, s') = m s in recover r f h s'

module _ {ℓ} {S A B : Type ℓ} where
  -- Two actions, of which the first one's value is dropped.
  infixl 10 ◌>>◌
  abbrev pub ◌>>◌ : Exec S A → Exec S B → Exec S B
  ◌>>◌ first second = first >>= (λ dropped. second)

module _ {ℓ} {S : Type ℓ} where
  unfoldable pub modify : (S → S) → Exec S (Unit {ℓ})
  modify f s = (ok tt, f s)

-- Inversion of a block that returned.
module _ {ℓ} {S A B : Type ℓ} where
  continue-eq-ok :
      (r : Result A) (f : A → Exec S B) (s : S) {b : B} {t : S}
      → continue r f s ≡ (ok b, t)
      → (a : A) × (r ≡ ok a) × (f a s ≡ (ok b, t))
  continue-eq-ok (ok a) f s h = (a, refl, h)
  continue-eq-ok (err e) f s h = cc

  pub >>=-eq-ok :
      (m : Exec S A) (f : A → Exec S B) (s : S) {b : B} {t : S}
      → (m >>= f) s ≡ (ok b, t)
      → (a : A) × ((m s).0 ≡ ok a) × (f a (m s).1 ≡ (ok b, t))
  unfolding ◌>>=◌
  >>=-eq-ok m f s h = continue-eq-ok (m s).0 f (m s).1 h
