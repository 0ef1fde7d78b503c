-- ===== src/Utilities.antt =====
-- Base64Encode of utilities/runtime_utilities/runtime_utilities.cpp, over bytes.
pub mod Decoding
use Prim.Native.Char.{code}
use Prim.Native.String.{String}
use shooting_star.Base.{ℕ, zero, suc, ◌+◌, ◌*◌, ◌/◌, ◌%◌, List, [], ◌∷◌}

abbrev bytes : String → List ℕ
bytes String.[] = []
bytes (String.◌∷◌ c s) = code c ∷ bytes s

abbrev kbase64_chars : List ℕ
kbase64_chars = bytes "ABCDEFGHIJKLMNOPQRSTUVWXYZabcdefghijklmnopqrstuvwxyz0123456789+/"

abbrev at : List ℕ → ℕ → ℕ
at [] i = 0
at (c ∷ cs) zero = c
at (c ∷ cs) (suc i) = at cs i

-- kBase64Chars[i]; the code has no index from 64 on.
pub symbol : ℕ → ℕ
symbol i = at kbase64_chars i

-- The loop takes three bytes at a time; `<<` and `>>` are products and quotients with powers of 2, and
-- `|` joins disjoint bits.
unfoldable pub base64_encode : List ℕ → List ℕ
unfolding symbol
base64_encode [] = []
base64_encode (b0 ∷ []) = symbol (b0 / 4) ∷ symbol (b0 % 4 * 16) ∷ b'=' ∷ b'=' ∷ []
base64_encode (b0 ∷ b1 ∷ []) =
    symbol (b0 / 4) ∷ symbol (b0 % 4 * 16 + b1 / 16) ∷ symbol (b1 % 16 * 4) ∷ b'=' ∷ []
base64_encode (b0 ∷ b1 ∷ b2 ∷ rest) =
    symbol (b0 / 4)
    ∷ symbol (b0 % 4 * 16 + b1 / 16)
    ∷ symbol (b1 % 16 * 4 + b2 / 64)
    ∷ symbol (b2 % 64)
    ∷ base64_encode rest
