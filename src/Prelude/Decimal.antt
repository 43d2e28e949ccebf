-- ===== src/Prelude/Decimal.antt =====
-- String(n) of an integer: its decimal digits.
use Prim.Native.Nat.{ℕ, zero, suc, ◌+◌, ◌-◌, ◌*◌, ◌/◌, ◌%◌, ◌<◌}
use mathlib.Core.Path.{◌≡◌, refl, ap, sym, ◌∙◌}
use mathlib.Core.Bool.{Bool, true, false, ◌&&◌}
use mathlib.Core.Logic.{inl, inr}
use mathlib.Core.List.{[], ◌∷◌}
use native.Mathlib.Omega.{arith}
use bsg.Prelude.Tests.{ltb, leb, Bool-cases}
use bsg.Prelude.Lists.{All}
use bsg.Prelude.Texts.{Text}
use bsg.Prelude.Int.{ℤ, pos, negsuc}

-- The digits of `n`, in front of `rest`. One round for each digit, so `n + 1` rounds suffice.
digits_onto : ℕ → ℕ → Text → Text
digits_onto zero n rest = rest
digits_onto (suc fuel) n rest = elim (ltb n 10) [
  | true ↦ (48 + n) ∷ rest
  | false ↦ digits_onto fuel (n / 10) ((48 + n % 10) ∷ rest)
]

unfoldable pub natural_text : ℕ → Text
unfolding digits_onto
natural_text n = digits_onto (suc n) n []

unfoldable pub integer_text : ℤ → Text
unfolding natural_text
integer_text (pos n) = natural_text n
integer_text (negsuc n) = b'-' ∷ natural_text (suc n)

-- The number that digits stand for, behind those that stand for `v`.
read_from : ℕ → Text → ℕ
read_from v [] = v
read_from v (c ∷ s) = read_from (v * 10 + (c - 48)) s

read_from-digits_onto :
    (fuel n : ℕ) (rest : Text) → n < fuel → read_from 0 (digits_onto fuel n rest) ≡ read_from n rest
unfolding digits_onto read_from
read_from-digits_onto zero n rest h = absurd (omega arith)
read_from-digits_onto (suc fuel) n rest h = elim (Bool-cases (ltb n 10)) [
  | inl small ↦ rw (small, digits_onto) (ap (λ k. read_from k rest) (omega arith))
  | inr big ↦
      rw (big, digits_onto)
        (read_from-digits_onto fuel (n / 10) ((48 + n % 10) ∷ rest) (ground arith)
          ∙ ap (λ k. read_from k rest) (omega arith))
]

pub natural_text_injective : (m n : ℕ) → natural_text m ≡ natural_text n → m ≡ n
unfolding natural_text read_from
natural_text_injective m n e =
    sym (read_from-digits_onto (suc m) m [] (omega arith))
    ∙ ap (read_from 0) e
    ∙ read_from-digits_onto (suc n) n [] (omega arith)

abbrev pub is_digit : ℕ → Bool
is_digit c = leb 48 c && leb c 57

digits_onto-digits :
    (fuel n : ℕ) (rest : Text)
    → n < fuel
    → All (λ c. is_digit c ≡ true) rest
    → All (λ c. is_digit c ≡ true) (digits_onto fuel n rest)
unfolding digits_onto
digits_onto-digits zero n rest h k = absurd (omega arith)
digits_onto-digits (suc fuel) n rest h k = elim (Bool-cases (ltb n 10)) [
  | inl small ↦ rw (small, digits_onto) (ground arith, k)
  | inr big ↦
      rw (big, digits_onto)
        (digits_onto-digits fuel (n / 10) ((48 + n % 10) ∷ rest) (ground arith) (ground arith, k))
]

pub natural_text-digits : (n : ℕ) → All (λ c. is_digit c ≡ true) (natural_text n)
unfolding natural_text
natural_text-digits n = digits_onto-digits (suc n) n [] (omega arith) tt

natural_text_runs : natural_text 1_790_450 ≡ b'1' ∷ b'7' ∷ b'9' ∷ b'0' ∷ b'4' ∷ b'5' ∷ b'0' ∷ []
unfolding natural_text
natural_text_runs = refl
