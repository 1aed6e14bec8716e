-- ===== src/Exec/Keeps.antt =====
-- Invariants of code that may stop: one rule for each way to build it.
use oseid_simulavr.Base.{Bool, true, false, Option, none, some, if◌then◌else◌}
use package.oseid_simulavr.Exec.{
  Outcome, ok, avr_error, undefined, Exec, pure, stop, fault, defined, gets, then_with, ◌>>=◌,
}

-- What holds of the state if the code returns at all.
abbrev pub After {ℓ} : {S A : Type ℓ} → (S → Type ℓ) → Outcome (A × S) → Type ℓ
After P (ok r) = P r.1
After P avr_error = Unit
After P undefined = Unit

pub record Keeps {ℓ} {S A : Type ℓ} (P : S → Type ℓ) (m : Exec S A) : Type ℓ where
  pub at : (s : S) → P s → After P (m s)

module _ {ℓ} {S A : Type ℓ} {P : S → Type ℓ} where
  pub Keeps-pure : (a : A) → Keeps P (pure a)
  Keeps-pure a = record { at = λ s h. h }

  pub Keeps-stop : Keeps P (stop {A = A})
  Keeps-stop = record { at = λ s h. tt }

  pub Keeps-fault : Keeps P (fault {A = A})
  Keeps-fault = record { at = λ s h. tt }

  pub Keeps-gets : (f : S → A) → Keeps P (gets f)
  Keeps-gets f = record { at = λ s h. h }

  pub Keeps-if :
      (test : Bool) (held failed : Exec S A)
      → Keeps P held
      → Keeps P failed
      → Keeps P (if test then held else failed)
  Keeps-if true held failed kh kf = kh
  Keeps-if false held failed kh kf = kf

  pub Keeps-defined : (o : Option A) → Keeps P (defined o)
  Keeps-defined none = record { at = λ s h. tt }
  Keeps-defined (some a) = record { at = λ s h. h }

module _ {ℓ} {S A B : Type ℓ} {P : S → Type ℓ} where
  After-then_with :
      (o : Outcome (A × S)) (f : A → Exec S B)
      → After P o
      → ((a : A) → Keeps P (f a))
      → After P (then_with o f)
  After-then_with (ok (a, s)) f h kf = (kf a).at s h
  After-then_with avr_error f h kf = tt
  After-then_with undefined f h kf = tt

  pub Keeps-bind :
      (first : Exec S A) (next : A → Exec S B)
      → Keeps P first
      → ((a : A) → Keeps P (next a))
      → Keeps P (first >>= next)
  Keeps-bind first next kf kn = record { at = λ s h. After-then_with (first s) next (kf.at s h) kn }

module _ {ℓ} {S A : Type ℓ} (P : S → Type ℓ) where
  pub After-if :
      (b : Bool) (o p : Outcome (A × S)) → After P o → After P p → After P (if b then o else p)
  After-if true o p ho hp = ho
  After-if false o p ho hp = hp
