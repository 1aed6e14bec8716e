-- ===== src/Exec/Returns.antt =====
-- Total correctness of code that may stop: it returns, and what it returns satisfies `P`.
use oseid_simulavr.Base.{◌≡◌, sym, subst}
use package.oseid_simulavr.Exec.{Outcome, ok, avr_error, undefined, Exec, then_with, ◌>>◌}

abbrev pub Returns {ℓ} : {A : Type ℓ} → Outcome A → (A → Type 0) → Type 0
Returns (ok a) P = P a
Returns avr_error P = ⊥
Returns undefined P = ⊥

pub Returns-ok {ℓ} :
    {A : Type ℓ} (o : Outcome A) (a : A) (P : A → Type 0) → o ≡ ok a → P a → Returns o P
Returns-ok o a P e p = subst (λ o. Returns o P) (sym e) p

pub Returns-then {ℓ} :
    {S A B : Type ℓ} (m : Exec S A) (n : Exec S B) (s s1 : S) (a : A) (P : B × S → Type 0)
    → m s ≡ ok (a, s1)
    → Returns (n s1) P
    → Returns ((m >> n) s) P
Returns-then m n s s1 a P e p = subst (λ o. Returns (then_with o (λ t. n)) P) (sym e) p
