-- ===== src/Utilities/Decoding.antt =====
-- A decoder for base 64 with padding, as RFC 4648 describes it, and the round trip.
use shooting_star.Base.{
  ℕ, zero, suc, ◌+◌, ◌-◌, ◌*◌, ◌/◌, ◌%◌, ◌<◌, Bool, true, false, ◌||◌, not, List, [], ◌∷◌, Option,
  none, some, All, ◌≡◌, refl, ap, arith, if◌then◌else◌, ◌==◌, ltb, Bool-cases, inl, inr,
}
use shooting_star.Utilities.{symbol, base64_encode}

abbrev between : ℕ → ℕ → ℕ → Bool
between low high c = not (ltb c low || ltb high c)

-- The number of six bits that a character stands for.
pub value : ℕ → Option ℕ
value c =
    if between b'A' b'Z' c
    then some (c - b'A')
    else if between b'a' b'z' c
    then some (c - b'a' + 26)
    else if between b'0' b'9' c
    then some (c - b'0' + 52)
    else if c == b'+'
    then some 62
    else if c == b'/'
    then some 63
    else none

abbrev one : Option ℕ → Option ℕ → Option (List ℕ)
one (some v0) (some v1) = some ((v0 * 4 + v1 / 16) ∷ [])
one _ _ = none

abbrev two : Option ℕ → Option ℕ → Option ℕ → Option (List ℕ)
two (some v0) (some v1) (some v2) = some ((v0 * 4 + v1 / 16) ∷ (v1 % 16 * 16 + v2 / 4) ∷ [])
two _ _ _ = none

abbrev three : Option ℕ → Option ℕ → Option ℕ → Option ℕ → Option (List ℕ) → Option (List ℕ)
three (some v0) (some v1) (some v2) (some v3) (some rest) =
    some ((v0 * 4 + v1 / 16) ∷ (v1 % 16 * 16 + v2 / 4) ∷ (v2 % 4 * 64 + v3) ∷ rest)
three _ _ _ _ _ = none

-- Padding may stand at the end only.
abbrev last : List ℕ → Option (List ℕ) → Option (List ℕ)
last [] group = group
last (c ∷ cs) group = none

pub decode : List ℕ → Option (List ℕ)
unfolding value
decode [] = some []
decode (c0 ∷ c1 ∷ c2 ∷ c3 ∷ rest) =
    let behind = decode rest in
    if c2 == b'='
    then (if c3 == b'=' then last rest (one (value c0) (value c1)) else none)
    else if c3 == b'='
    then last rest (two (value c0) (value c1) (value c2))
    else three (value c0) (value c1) (value c2) (value c3) behind
decode _ = none

abbrev is_symbol : ℕ → Bool
is_symbol i = elim (value (symbol i)) [
  | none ↦ false
  | some v ↦ if symbol i == b'=' then false else v == i
]

abbrev below : ℕ → (ℕ → Bool) → Bool
below zero test = true
below (suc n) test = if test n then below n test else false

below-test : (n i : ℕ) (test : ℕ → Bool) → below n test ≡ true → i < n → test i ≡ true
below-test zero i test h k = absurd (omega (arith, k))
below-test (suc n) i test h k = elim (Bool-cases (i == n)) [
  | inl e ↦ ground (arith, h, e)
  | inr e ↦ ground (arith, h, below-test n i test, e, k)
]

symbols : below 64 is_symbol ≡ true
unfolding value symbol
symbols = refl

value-symbol : (i : ℕ) → i < 64 → (value (symbol i) ≡ some i) × ((symbol i == b'=') ≡ false)
value-symbol i h =
    let t : is_symbol i ≡ true = below-test 64 i is_symbol symbols h in ground (arith, t)

abbrev pub IsByte : ℕ → Type 0
IsByte b = b < 256

first_byte : (b x : ℕ) → x < 16 → b / 4 * 4 + (b % 4 * 16 + x) / 16 ≡ b
first_byte b x h = omega (arith, h)

second_byte : (y b x : ℕ) → b < 256 → x < 4 → (y * 16 + b / 16) % 16 * 16 + (b % 16 * 4 + x) / 4 ≡ b
second_byte y b x h k = omega (arith, h, k)

third_byte : (y b : ℕ) → b < 256 → (y * 4 + b / 64) % 4 * 64 + b % 64 ≡ b
third_byte y b h = omega (arith, h)

-- Every sequence of bytes is decoded from its encoding.
pub decode-base64_encode :
    (bytes : List ℕ) → All IsByte bytes → decode (base64_encode bytes) ≡ some bytes
unfolding decode base64_encode
decode-base64_encode [] h = refl
decode-base64_encode (b0 ∷ []) h =
    let s0 = value-symbol (b0 / 4) (omega (arith, h.0)) in
    let s1 = value-symbol (b0 % 4 * 16) (omega arith) in
    rw (decode, s0.0, s1.0) (ap (λ b. some (b ∷ [])) (omega arith))
decode-base64_encode (b0 ∷ b1 ∷ []) h =
    let s0 = value-symbol (b0 / 4) (omega (arith, h.0)) in
    let s1 = value-symbol (b0 % 4 * 16 + b1 / 16) (omega (arith, h.1.0)) in
    let s2 = value-symbol (b1 % 16 * 4) (omega arith) in
    rw (decode, s2.1, s0.0, s1.0, s2.0)
      (rw (first_byte b0 (b1 / 16) (omega (arith, h.1.0)))
        (ap (λ b. some (b0 ∷ b ∷ [])) (omega (arith, h.1.0))))
decode-base64_encode (b0 ∷ b1 ∷ b2 ∷ rest) h =
    let s0 = value-symbol (b0 / 4) (omega (arith, h.0)) in
    let s1 = value-symbol (b0 % 4 * 16 + b1 / 16) (omega (arith, h.1.0)) in
    let s2 = value-symbol (b1 % 16 * 4 + b2 / 64) (omega (arith, h.1.1.0)) in
    let s3 = value-symbol (b2 % 64) (omega arith) in
    rw (decode, s2.1, s3.1, s0.0, s1.0, s2.0, s3.0, decode-base64_encode rest h.1.1.1)
      (rw
        (
          first_byte b0 (b1 / 16) (omega (arith, h.1.0)),
          second_byte (b0 % 4) b1 (b2 / 64) h.1.0 (omega (arith, h.1.1.0)),
          third_byte (b1 % 16) b2 h.1.1.0,
        )
        refl)
