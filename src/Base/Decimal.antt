-- ===== src/Base/Decimal.antt =====
-- std::from_chars for a uint64_t over a whole text: one or more decimal digits, no sign, no overflow.
use Prim.Native.Nat.{ℕ, zero, suc, ◌+◌, ◌-◌, ◌*◌, ◌/◌, ◌%◌, ◌≤◌, ◌<◌}
use Prim.Native.Char.{code}
use Prim.Native.String.{String, ◌++◌ as ◌+++◌}
use mathlib.Core.Path.{◌≡◌, refl, ap, sym, ◌∙◌}
use mathlib.Core.Bool.{false, ◌||◌}
use mathlib.Core.Option.{Option, none, some}
use mathlib.Core.Logic.{inl, inr, ◌≢◌}
use native.Mathlib.Omega.{arith}
use text.Mathlib.TextLemmas.{
  append_assoc, append-nil, cons-append, nil-append, cons-ne-nil, append-ne-nil_of_right_ne-nil,
}
use shooting_star.Base.Tests.{if◌then◌else◌, ltb, Bool-cases}
use shooting_star.Base.Text.{digit, decimal, to_string}

abbrev pub uint64_max : ℕ
uint64_max = 18446744073709551615

-- The value behind `n`, unless a character is no digit or the value is too large.
unfoldable pub scan : String → ℕ → Option ℕ
scan String.[] n = some n
scan (String.◌∷◌ c s) n =
    let value = n * 10 + (code c - b'0') in
    let rest = scan s value in
    if ltb (code c) b'0' || ltb b'9' (code c) || ltb uint64_max value then none else rest

unfoldable pub parse_uint64 : String → Option ℕ
unfolding scan
parse_uint64 String.[] = none
parse_uint64 (String.◌∷◌ c s) = scan (String.◌∷◌ c s) 0

tests :
    (parse_uint64 "42" ≡ some 42)
    × (parse_uint64 "" ≡ none)
    × (parse_uint64 "-1" ≡ none)
    × (parse_uint64 "18446744073709551615" ≡ some uint64_max)
    × (parse_uint64 "18446744073709551616" ≡ none)
unfolding parse_uint64
tests = (refl, refl, refl, refl, refl)

-- A text of one digit.
abbrev IsDigit : String → ℕ → Type 0
IsDigit String.[] d = ⊥
IsDigit (String.◌∷◌ c s) d = (s ≡ "") × (code c ≡ b'0' + d)

scan-front :
    (s t : String) (d n : ℕ)
    → IsDigit s d
    → d < 10
    → n * 10 + d ≤ uint64_max
    → scan (s +++ t) n ≡ scan t (n * 10 + d)
unfolding scan
scan-front String.[] t d n h lt k = absurd h
scan-front (String.◌∷◌ c s) t d n h lt k =
    let e : b'0' + d - b'0' ≡ d = omega arith in
    let off : (ltb (b'0' + d) b'0' || ltb b'9' (b'0' + d) || ltb uint64_max (n * 10 + d)) ≡ false =
      ground (arith, k, lt) in
    rw (cons-append c s t, h.0, nil-append t, h.1, e, off) refl

digit-IsDigit : (d : ℕ) → d < 10 → IsDigit (digit d) d
unfolding digit
digit-IsDigit zero h = (refl, refl)
digit-IsDigit (suc zero) h = (refl, refl)
digit-IsDigit (suc (suc zero)) h = (refl, refl)
digit-IsDigit (suc (suc (suc zero))) h = (refl, refl)
digit-IsDigit (suc (suc (suc (suc zero)))) h = (refl, refl)
digit-IsDigit (suc (suc (suc (suc (suc zero))))) h = (refl, refl)
digit-IsDigit (suc (suc (suc (suc (suc (suc zero)))))) h = (refl, refl)
digit-IsDigit (suc (suc (suc (suc (suc (suc (suc zero))))))) h = (refl, refl)
digit-IsDigit (suc (suc (suc (suc (suc (suc (suc (suc zero)))))))) h = (refl, refl)
digit-IsDigit (suc (suc (suc (suc (suc (suc (suc (suc (suc zero))))))))) h = (refl, refl)
digit-IsDigit (suc (suc (suc (suc (suc (suc (suc (suc (suc (suc d)))))))))) h =
    absurd (omega (arith, h))

scan-decimal :
    (fuel n : ℕ) (t : String) → n ≤ fuel → n ≤ uint64_max → scan (decimal fuel n +++ t) 0 ≡ scan t n
unfolding decimal
scan-decimal zero n t h k =
    scan-front (digit (n % 10)) t (n % 10) 0 (digit-IsDigit (n % 10) (omega arith)) (omega arith)
      (omega (arith, h))
    ∙ ap (scan t) (omega (arith, h))
scan-decimal (suc fuel) n t h k = elim (Bool-cases (ltb n 10)) [
  | inl small ↦
      let lt : n < 10 = ground (arith, small) in
      rw small (
        scan-front (digit n) t n 0 (digit-IsDigit n lt) lt (omega (arith, lt))
        ∙ ap (scan t) (omega arith))
  | inr large ↦
      rw (large, append_assoc (decimal fuel (n / 10)) (digit (n % 10)) t)
        (scan-decimal fuel (n / 10) (digit (n % 10) +++ t) (ground (arith, large, h))
            (omega (arith, k))
          ∙ scan-front (digit (n % 10)) t (n % 10) (n / 10) (digit-IsDigit (n % 10) (omega arith))
              (omega arith) (omega (arith, k))
          ∙ ap (scan t) (omega arith))
]

digit-ne : (d : ℕ) (s : String) → IsDigit s d → s ≢ ""
digit-ne d String.[] h e = h
digit-ne d (String.◌∷◌ c s) h e = cons-ne-nil c s e

append-ne : (s t : String) → t ≢ "" → s +++ t ≢ ""
append-ne s t h = append-ne-nil_of_right_ne-nil s h

decimal-ne : (fuel n : ℕ) → decimal fuel n ≢ ""
unfolding decimal
decimal-ne zero n = digit-ne (n % 10) (digit (n % 10)) (digit-IsDigit (n % 10) (omega arith))
decimal-ne (suc fuel) n = elim (Bool-cases (ltb n 10)) [
  | inl small ↦ rw small (digit-ne n (digit n) (digit-IsDigit n (ground (arith, small))))
  | inr large ↦ rw large (
      append-ne (decimal fuel (n / 10)) (digit (n % 10))
        (digit-ne (n % 10) (digit (n % 10)) (digit-IsDigit (n % 10) (omega arith))))
]

parse-scan : (s : String) → s ≢ "" → parse_uint64 s ≡ scan s 0
unfolding parse_uint64
parse-scan String.[] h = absurd (h refl)
parse-scan (String.◌∷◌ c s) h = refl

-- The decimal text of an unsigned 64-bit number is read back as that number.
pub parse_uint64-to_string : (n : ℕ) → n ≤ uint64_max → parse_uint64 (to_string n) ≡ some n
unfolding to_string scan
parse_uint64-to_string n h =
    parse-scan (decimal n n) (decimal-ne n n)
    ∙ rw (sym (append-nil (decimal n n))) (scan-decimal n n "" (omega arith) h)
