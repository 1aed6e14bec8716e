-- ===== src/Exec.antt =====
-- Code that changes a state and may end the process: `avr_error` (avrerror.c) prints and calls
-- `exit`, and an access outside an array has no defined result.
pub mod Keeps
pub mod Returns
use oseid_simulavr.Base.{Option, none, some}

pub data Outcome {ℓ} (A : Type ℓ) : Type ℓ where
  ok : A → Outcome A
  avr_error : Outcome A
  undefined : Outcome A

abbrev pub Exec {ℓ} : Type ℓ → Type ℓ → Type ℓ
Exec S A = S → Outcome (A × S)

module _ {ℓ} {S A : Type ℓ} where
  abbrev pub pure : A → Exec S A
  pure a s = ok (a, s)

  abbrev pub stop : Exec S A
  stop s = avr_error

  abbrev pub fault : Exec S A
  fault s = undefined

  -- `none` is what C leaves undefined.
  abbrev pub defined : Option A → Exec S A
  defined none s = undefined
  defined (some a) s = ok (a, s)

  -- Reads the state, or a part of it.
  abbrev pub gets : (S → A) → Exec S A
  gets f s = ok (f s, s)

abbrev pub modify {ℓ} : {S : Type ℓ} → (S → S) → Exec S Unit
modify f s = ok (tt, f s)

module _ {ℓ} {S A B : Type ℓ} where
  abbrev pub then_with : Outcome (A × S) → (A → Exec S B) → Outcome (B × S)
  then_with (ok (a, s)) f = f a s
  then_with avr_error f = avr_error
  then_with undefined f = undefined

  infixl 10 ◌>>=◌ ◌>>◌
  abbrev pub ◌>>=◌ : Exec S A → (A → Exec S B) → Exec S B
  ◌>>=◌ m f s = then_with (m s) f

  abbrev pub ◌>>◌ : Exec S A → Exec S B → Exec S B
  m >> n = m >>= λ _. n
