-- ===== src/Common/Text.antt =====
-- Texts: the pieces of template literals, decimal numbers and code points.
pub mod Digits
use Prim.Native.Nat.{ℕ, zero, suc, ◌+◌, ◌/◌, ◌%◌}
use Prim.Native.Char.{code}
use Prim.Native.String.{String, slice}
use mathlib.Core.List.{List, [], ◌∷◌}
use personal_blog_service.Common.Tests.{ltb, if◌then◌else◌}

infixr 60 ◌⊕◌
-- `${a}${b}`.
abbrev pub ◌⊕◌ : String → String → String
a ⊕ b = Prim.Native.String.◌++◌ a b

-- The code points of a text.
abbrev pub codes : String → List ℕ
codes String.[] = []
codes (String.◌∷◌ c s) = code c ∷ codes s

-- `String(n)` for a natural number: each round of the fuel writes one digit.
decimal_from : ℕ → ℕ → String → String
decimal_from zero n acc = acc
decimal_from (suc f) n acc =
    let longer = slice "0123456789" (n % 10) (n % 10 + 1) ⊕ acc in
    let rest = decimal_from f (n / 10) longer in if ltb n 10 then longer else rest

unfoldable pub decimal : ℕ → String
unfolding decimal_from
decimal n = decimal_from (suc n) n ""

-- `list.join(separator)`.
abbrev pub join : String → List String → String
join separator [] = ""
join separator (x ∷ []) = x
join separator (x ∷ y ∷ rest) = x ⊕ separator ⊕ join separator (y ∷ rest)
