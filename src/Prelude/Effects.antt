-- ===== src/Prelude/Effects.antt =====
-- Handlers that write state and may throw. What was written before a throw stays written, so the
-- state is the second component on both outcomes.
use mathlib.Core.Option.{Option, none, some}

-- `throws` is an exception, a rejected promise included.
pub data Outcome {ℓ} (A : Type ℓ) : Type ℓ where
  returns : A → Outcome A
  throws : Outcome A

abbrev pub Run {ℓ κ} : Type ℓ → Type κ → Type (ℓ ⊔ κ)
Run S A = S → Outcome A × S

module _ {ℓ κ} {S : Type ℓ} {A : Type κ} where
  abbrev pub return : A → Run S A
  return a s = (returns a, s)

  abbrev pub throw : Run S A
  throw s = (throws, s)

  -- The value of a read that throws where it has none.
  abbrev pub need : Option A → Run S A
  need none = throw
  need (some a) = return a

  -- try { m } catch { handler }
  abbrev pub try_catch : Run S A → Run S A → Run S A
  try_catch m handler s = after (m s)
    where
      after : Outcome A × S → Outcome A × S
      after (returns a, s') = (returns a, s')
      after (throws, s') = handler s'

abbrev pub modify {ℓ} : {S : Type ℓ} → (S → S) → Run S (Unit {0})
modify f s = (returns tt, f s)

abbrev pub gets {ℓ κ} : {S : Type ℓ} {A : Type κ} → (S → A) → Run S A
gets f s = (returns (f s), s)

abbrev continue {ℓ κ μ} :
    {S : Type ℓ} {A : Type κ} {B : Type μ} → Outcome A × S → (A → Run S B) → Outcome B × S
continue (returns a, s) f = f a s
continue (throws, s) f = (throws, s)

infixl 5 ◌>>=◌ ◌>>◌
abbrev pub ◌>>=◌ {ℓ κ μ} :
    {S : Type ℓ} {A : Type κ} {B : Type μ} → Run S A → (A → Run S B) → Run S B
◌>>=◌ m f s = continue (m s) f

abbrev pub ◌>>◌ {ℓ κ μ} : {S : Type ℓ} {A : Type κ} {B : Type μ} → Run S A → Run S B → Run S B
◌>>◌ m k s = continue (m s) (λ _. k)
