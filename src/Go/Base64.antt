-- ===== src/Go/Base64.antt =====
-- base64.StdEncoding.EncodeToString.
use meek.Base.{
  ℕ, ◌+◌, ◌-◌, ◌*◌, ◌/◌, ◌%◌, ◌<◌, Bytes, codes, [], ◌∷◌, ltb, ◌==◌, if◌then◌else◌, ◌≡◌, ◌≢◌, refl,
  arith,
}

-- The letter of a six-bit value.
unfoldable pub letter : ℕ → ℕ
letter i =
    if ltb i 26
    then b'A' + i
    else if ltb i 52
    then b'a' + (i - 26)
    else if ltb i 62
    then b'0' + (i - 52)
    else if i == 62
    then b'+'
    else b'/'

unfoldable pub encode : Bytes → Bytes
encode [] = []
encode (a ∷ []) = letter (a / 4) ∷ letter (a % 4 * 16) ∷ b'=' ∷ b'=' ∷ []
encode (a ∷ b ∷ []) =
    letter (a / 4) ∷ letter (a % 4 * 16 + b / 16) ∷ letter (b % 16 * 4) ∷ b'=' ∷ []
encode (a ∷ b ∷ c ∷ s) =
    letter (a / 4)
    ∷ letter (a % 4 * 16 + b / 16)
    ∷ letter (b % 16 * 4 + c / 64)
    ∷ letter (c % 64)
    ∷ encode s

pub letter-ne-pad : (i : ℕ) → letter i ≢ b'='
unfolding letter
letter-ne-pad i = ground arith

pub letter-injective : (i j : ℕ) → i < 64 → j < 64 → letter i ≡ letter j → i ≡ j
unfolding letter
letter-injective i j p q h = ground arith

encode_test : encode (codes "Many hands") ≡ codes "TWFueSBoYW5kcw=="
unfolding encode letter
encode_test = refl
