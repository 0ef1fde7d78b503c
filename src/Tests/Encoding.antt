-- ===== src/Tests/Encoding.antt =====
-- A run of Base64Encode.
use shooting_star.Base.{[], ◌∷◌, some, ◌≡◌, refl, arith}
use shooting_star.Utilities.{base64_encode}
use shooting_star.Utilities.Decoding.{decode, decode-base64_encode}

-- "user" in base 64 is "dXNlcg==".
user-encoded :
    base64_encode (b'u' ∷ b's' ∷ b'e' ∷ b'r' ∷ [])
    ≡ b'd' ∷ b'X' ∷ b'N' ∷ b'l' ∷ b'c' ∷ b'g' ∷ b'=' ∷ b'=' ∷ []
unfolding base64_encode
user-encoded = refl

decode-base64_encode_example :
    decode (base64_encode (b'u' ∷ b's' ∷ b'e' ∷ b'r' ∷ [])) ≡ some (b'u' ∷ b's' ∷ b'e' ∷ b'r' ∷ [])
decode-base64_encode_example =
    decode-base64_encode (b'u' ∷ b's' ∷ b'e' ∷ b'r' ∷ [])
      (omega arith, (omega arith, (omega arith, (omega arith, tt))))
