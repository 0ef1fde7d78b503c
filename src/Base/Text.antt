-- ===== src/Base/Text.antt =====
-- Texts (std::string) and what the program does with them: comparison, emptiness, std::format.
use Prim.Native.Nat.{ℕ, zero, suc, ◌/◌, ◌%◌}
use Prim.Native.String.{String, ◌++◌ as ◌+++◌}
use mathlib.Core.Path.{◌≡◌, sym, ◌∙◌}
use mathlib.Core.Logic.{◌↔◌, inl, inr}
use mathlib.Core.Bool.{Bool, true, false}
use mathlib.Core.List.{List, [], ◌∷◌}
use text.Mathlib.Text.{◌==◌ as ◌==s◌}
use text.Mathlib.TextEquality.{eq_iff}
use text.Mathlib.TextPositions.{eq_refl}
use native.Mathlib.Omega.{arith}
use text.Mathlib.TextLemmas.{cons-append, cons-ne-nil}
use shooting_star.Base.Tests.{if◌then◌else◌, ltb, Bool-cases}
use shooting_star.Base.Int.{ℤ, pos, negsuc}

abbrev pub str_eq : String → String → Bool
str_eq a b = a ==s b

pub str_eq_iff : (a b : String) → (str_eq a b ≡ true) ↔ (a ≡ b)
str_eq_iff = eq_iff

pub str_eq_refl : (a : String) → str_eq a a ≡ true
str_eq_refl = eq_refl

abbrev pub is_empty : String → Bool
is_empty s = str_eq s ""

abbrev pub concat : List String → String
concat [] = ""
concat (s ∷ rest) = s +++ concat rest

unfoldable pub digit : ℕ → String
digit zero = "0"
digit (suc zero) = "1"
digit (suc (suc zero)) = "2"
digit (suc (suc (suc zero))) = "3"
digit (suc (suc (suc (suc zero)))) = "4"
digit (suc (suc (suc (suc (suc zero))))) = "5"
digit (suc (suc (suc (suc (suc (suc zero)))))) = "6"
digit (suc (suc (suc (suc (suc (suc (suc zero))))))) = "7"
digit (suc (suc (suc (suc (suc (suc (suc (suc zero)))))))) = "8"
digit _ = "9"

-- The fuel is the number itself: it has fewer decimal digits than that, plus one.
unfoldable pub decimal : ℕ → ℕ → String
decimal zero n = digit (n % 10)
decimal (suc fuel) n =
    let rest = decimal fuel (n / 10) in if ltb n 10 then digit n else (rest +++ digit (n % 10))

-- `{}` of std::format at an unsigned and at a signed integer.
unfoldable pub to_string : ℕ → String
unfolding digit decimal
to_string n = decimal n n

unfoldable pub to_string_ℤ : ℤ → String
unfolding to_string
to_string_ℤ (pos n) = to_string n
to_string_ℤ (negsuc n) = "-" +++ to_string (suc n)

pub is_empty-append : (s t : String) → is_empty s ≡ false → is_empty (s +++ t) ≡ false
is_empty-append String.[] t h = absurd (ground (arith, h))
is_empty-append (String.◌∷◌ c s) t h = elim (Bool-cases (is_empty (String.◌∷◌ c s +++ t))) [
  | inl e ↦ absurd (cons-ne-nil c (s +++ t) (sym (cons-append c s t) ∙ (str_eq_iff _ _).0 e))
  | inr e ↦ e
]
