-- ===== src/Opamp/Hex.antt =====
-- `encoding/hex` as internal/opampserver uses it.
use opsramp_agent_orchestrat.Prelude.{
  ℕ, ◌+◌, ◌-◌, ◌*◌, ◌/◌, ◌%◌, ◌<◌, ◌≡◌, refl, Bool, true, false, ◌&&◌, Option, none, some, List, [],
  ◌∷◌, ltb, leb, if◌then◌else◌, Text, All, arith,
}

unfoldable pub hex_digit : ℕ → ℕ
hex_digit n = if ltb n 10 then n + 48 else n + 87

-- `hex.EncodeToString`
unfoldable pub hex_encode : List ℕ → Text
unfolding hex_digit
hex_encode [] = []
hex_encode (b ∷ bs) = hex_digit (b / 16) ∷ hex_digit (b % 16) ∷ hex_encode bs

hex_value : ℕ → Option ℕ
hex_value c =
    if leb 48 c && leb c 57
    then some (c - 48)
    else if leb 97 c && leb c 102
    then some (c - 87)
    else if leb 65 c && leb c 70
    then some (c - 55)
    else none

join_byte : Option ℕ → Option ℕ → List ℕ × Bool → List ℕ × Bool
join_byte none lo rest = ([], false)
join_byte (some hi) none rest = ([], false)
join_byte (some hi) (some lo) (bs, good) = ((hi * 16 + lo) ∷ bs, good)

-- `hex.DecodeString`: the bytes before the first fault, and whether there was none.
unfoldable pub hex_decode : Text → List ℕ × Bool
unfolding hex_value join_byte
hex_decode [] = ([], true)
hex_decode (c ∷ []) = ([], false)
hex_decode (c ∷ d ∷ s) = let rest = hex_decode s in join_byte (hex_value c) (hex_value d) rest

hex_value-hex_digit : (n : ℕ) → n < 16 → hex_value (hex_digit n) ≡ some n
unfolding hex_value hex_digit
hex_value-hex_digit n h = ground arith

-- Decoding an encoded list of bytes gives it back, without a fault.
pub hex_decode-hex_encode :
    (bs : List ℕ) → All (λ b. b < 256) bs → hex_decode (hex_encode bs) ≡ (bs, true)
unfolding hex_encode hex_decode join_byte
hex_decode-hex_encode [] h = refl
hex_decode-hex_encode (b ∷ bs) h =
    let high : hex_value (hex_digit (b / 16)) ≡ some (b / 16) =
      hex_value-hex_digit (b / 16) (grind (arith, h.0)) in
    let low : hex_value (hex_digit (b % 16)) ≡ some (b % 16) =
      hex_value-hex_digit (b % 16) (grind arith) in
    let whole : (b / 16) * 16 + b % 16 ≡ b = grind arith in
    rw (high, low, hex_decode-hex_encode bs h.1, whole)
