-- ===== src/Base/Exec.antt =====
-- Code that changes a state and may throw. What was written before a throw stays written.
use Prim.Native.String.{String}

pub data Result {ℓ} (A : Type ℓ) : Type ℓ where
  ok : A → Result A
  err : String → Result A

abbrev pub Exec {ℓ} : Type ℓ → Type ℓ → Type ℓ
Exec S A = S → Result A × S

module _ {ℓ} {S A : Type ℓ} where
  abbrev pub pure : A → Exec S A
  pure a s = (ok a, s)

  abbrev pub throw : String → Exec S A
  throw e s = (err e, s)

  abbrev pub rethrow : Result A → Exec S A
  rethrow r s = (r, s)

module _ {ℓ} {S A B : Type ℓ} where
  abbrev pub continue : Result A → (A → Exec S B) → Exec S B
  continue (ok a) f s = f a s
  continue (err e) f s = (err e, s)

  infixl 10 ◌>>=◌ ◌>>◌
  abbrev pub ◌>>=◌ : Exec S A → (A → Exec S B) → Exec S B
  ◌>>=◌ m f s = let (r, s') = m s in continue r f s'

  abbrev pub ◌>>◌ : Exec S A → Exec S B → Exec S B
  m >> n = m >>= λ _. n

module _ {ℓ} {S A : Type ℓ} where
  abbrev recover : (String → Exec S A) → Result A → Exec S A
  recover handler (ok a) s = (ok a, s)
  recover handler (err e) s = handler e s

  -- `try { m } catch (e) { handler(e) }`
  abbrev pub catch : Exec S A → (String → Exec S A) → Exec S A
  catch m handler s = let (r, s') = m s in recover handler r s'
