-- ===== src/Common/Text/Digits.antt =====
-- The decimal text of a number gives the number back, so two numbers share it only if they are the
-- same.
use Prim.Native.Nat.{ℕ, zero, suc, ◌+◌, ◌-◌, ◌*◌, ◌/◌, ◌%◌, ◌<◌}
use Prim.Native.Char.{Char, code}
use Prim.Native.String.{String, slice}
use mathlib.Core.Path.{◌≡◌, refl, sym, ap, ◌∙◌}
use mathlib.Core.Logic.{inl, inr}
use native.Mathlib.Omega.{arith}
use text.Mathlib.TextLemmas.{cons-append, nil-append}
use personal_blog_service.Common.Tests.{ltb, Bool-cases}
use personal_blog_service.Common.Text.{◌⊕◌, decimal, decimal_from}

-- A text of digits read after the number `n`.
abbrev pub read_digits : ℕ → String → ℕ
read_digits n String.[] = n
read_digits n (String.◌∷◌ c s) = read_digits (n * 10 + (code c - 48)) s

one_digit :
    (c : Char) (n : ℕ) (s : String)
    → read_digits n (String.◌∷◌ c String.[] ⊕ s) ≡ read_digits (n * 10 + (code c - 48)) s
one_digit c n s =
    ap (read_digits n) (cons-append c String.[] s)
    ∙ ap (read_digits (n * 10 + (code c - 48))) (nil-append s)

digit : ℕ → String
digit d = slice "0123456789" d (d + 1)

-- Digit by digit.
read_digit :
    (d n : ℕ) (s : String) → d < 10 → read_digits n (digit d ⊕ s) ≡ read_digits (n * 10 + d) s
unfolding digit
read_digit zero n s h = one_digit "0" n s
read_digit (suc zero) n s h = one_digit "1" n s
read_digit (suc (suc zero)) n s h = one_digit "2" n s
read_digit (suc (suc (suc zero))) n s h = one_digit "3" n s
read_digit (suc (suc (suc (suc zero)))) n s h = one_digit "4" n s
read_digit (suc (suc (suc (suc (suc zero))))) n s h = one_digit "5" n s
read_digit (suc (suc (suc (suc (suc (suc zero)))))) n s h = one_digit "6" n s
read_digit (suc (suc (suc (suc (suc (suc (suc zero))))))) n s h = one_digit "7" n s
read_digit (suc (suc (suc (suc (suc (suc (suc (suc zero)))))))) n s h = one_digit "8" n s
read_digit (suc (suc (suc (suc (suc (suc (suc (suc (suc zero))))))))) n s h = one_digit "9" n s
read_digit (suc (suc (suc (suc (suc (suc (suc (suc (suc (suc d)))))))))) n s h =
    absurd (omega arith)

-- With more rounds than the number there are enough of them.
read_decimal_from :
    (f n : ℕ) (s : String) → n < f → read_digits 0 (decimal_from f n s) ≡ read_digits n s
unfolding decimal_from digit
read_decimal_from zero n s h = absurd (omega arith)
read_decimal_from (suc f) n s h =
    let longer = digit (n % 10) ⊕ s in
    elim (Bool-cases (ltb n 10)) [
      | inl small ↦
          rw small
            (read_digit (n % 10) 0 s (omega arith) ∙ ap (λ m. read_digits m s) (ground arith))
      | inr large ↦ rw large (
          read_decimal_from f (n / 10) longer (ground arith)
          ∙ read_digit (n % 10) (n / 10) s (omega arith)
          ∙ ap (λ m. read_digits m s) (ground arith))
    ]

-- The text of a number reads back as the number, so the rounds of `decimal` are enough.
pub read_digits-decimal : (n : ℕ) → read_digits 0 (decimal n) ≡ n
unfolding decimal
read_digits-decimal n = read_decimal_from (suc n) n "" (omega arith) ∙ refl

pub decimal-injective : (m n : ℕ) → decimal m ≡ decimal n → m ≡ n
decimal-injective m n e = sym (read_digits-decimal m) ∙ ap (read_digits 0) e ∙ read_digits-decimal n
