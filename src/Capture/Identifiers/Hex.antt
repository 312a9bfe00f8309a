-- ===== src/Capture/Identifiers/Hex.antt =====
-- uuid.go: what a reader of hexadecimal digits and dashes gets.
use groundcover_go.Base.{
  ℕ, ◌+◌, ◌-◌, ◌*◌, ◌/◌, ◌%◌, ◌<◌, ◌≡◌, refl, ap, false, ◌&&◌, List, [], ◌∷◌, ◌++◌, Option, none,
  some, leb, ◌==◌, if◌then◌else◌, length, arith,
}
use groundcover_go.Capture.Identifiers.{hex_digit, hex_encode}

-- a reader: the value of a digit, and of a text of pairs of digits
unfoldable pub unhex : ℕ → Option ℕ
unhex c =
    if leb b'0' c && leb c b'9'
    then some (c - b'0')
    else (if leb b'a' c && leb c b'f' then some (c - b'a' + 10) else none)

pair : Option ℕ → Option ℕ → Option (List ℕ) → Option (List ℕ)
pair (some h) (some l) (some bs) = some ((h * 16 + l) ∷ bs)
pair _ _ _ = none

unfoldable pub hex_decode : List ℕ → Option (List ℕ)
unfolding pair
hex_decode [] = some []
hex_decode (c ∷ []) = none
hex_decode (c ∷ d ∷ cs) = pair (unhex c) (unhex d) (hex_decode cs)

unfoldable pub undash : List ℕ → List ℕ
undash [] = []
undash (c ∷ cs) = let rest = undash cs in if c == b'-' then rest else c ∷ rest

abbrev pub AreBytes : List ℕ → Type 0
AreBytes [] = Unit {0}
AreBytes (b ∷ bs) = (b < 256) × AreBytes bs

unhex-hex_digit : (n : ℕ) → n < 16 → unhex (hex_digit n) ≡ some n
unfolding unhex hex_digit
unhex-hex_digit n h = ground arith

hex_digit-≢-dash : (n : ℕ) → (hex_digit n == b'-') ≡ false
unfolding hex_digit
hex_digit-≢-dash n = ground arith

pub hex_decode-hex_encode : (bs : List ℕ) → AreBytes bs → hex_decode (hex_encode bs) ≡ some bs
unfolding hex_encode hex_decode pair
hex_decode-hex_encode [] h = refl
hex_decode-hex_encode (b ∷ bs) h =
    rw
      (
        unhex-hex_digit (b / 16) (omega (arith, h.0)),
        unhex-hex_digit (b % 16) (omega arith),
        hex_decode-hex_encode bs h.1,
      )
      (ap (λ x. some (x ∷ bs)) (omega arith))

pub length-hex_encode : (bs : List ℕ) → length (hex_encode bs) ≡ 2 * length bs
unfolding hex_encode
length-hex_encode [] = refl
length-hex_encode (b ∷ bs) = omega (arith, length-hex_encode bs)

pub undash-hex_encode : (bs cs : List ℕ) → undash (hex_encode bs ++ cs) ≡ hex_encode bs ++ undash cs
unfolding undash hex_encode
undash-hex_encode [] cs = refl
undash-hex_encode (b ∷ bs) cs =
    rw (hex_digit-≢-dash (b / 16), hex_digit-≢-dash (b % 16), undash-hex_encode bs cs) refl

pub hex_encode-append : (bs cs : List ℕ) → hex_encode (bs ++ cs) ≡ hex_encode bs ++ hex_encode cs
unfolding hex_encode
hex_encode-append [] cs = refl
hex_encode-append (b ∷ bs) cs = rw (hex_encode-append bs cs) refl
