-- ===== src/Capture/Identifiers.antt =====
-- uuid.go: UUIDs, span and trace identifiers. A text is the list of its bytes. What `rand.Read`
-- leaves in the array is a parameter, none where it fails.
pub mod Hex
pub mod Groups
pub mod Stamp
pub mod Decoded
use Prim.Native.Nat.{bit_and, bit_or}
use groundcover_go.Base.{
  ℕ, ◌+◌, ◌-◌, ◌/◌, ◌%◌, List, [], ◌∷◌, ◌++◌, Option, none, some, ltb, if◌then◌else◌, get_or, set,
  take, drop, replicate,
}

-- `hex.EncodeToString`: two digits for each byte, in lower case
unfoldable pub hex_digit : ℕ → ℕ
hex_digit n = if ltb n 10 then b'0' + n else b'a' + (n - 10)

unfoldable pub hex_encode : List ℕ → List ℕ
hex_encode [] = []
hex_encode (b ∷ bs) = hex_digit (b / 16) ∷ hex_digit (b % 16) ∷ hex_encode bs

-- the slice `b[i:j]`
unfoldable pub slice : ℕ → ℕ → List ℕ → List ℕ
slice i j b = take (j - i) (drop i b)

unfoldable pub version_byte : ℕ → ℕ
version_byte x = bit_or (bit_and x 0x0F) 0x40

unfoldable pub variant_byte : ℕ → ℕ
variant_byte x = bit_or (bit_and x 0x3F) 0x80

unfoldable pub stamp : List ℕ → List ℕ
stamp b = let b' = set b 6 (version_byte (get_or b 6 0)) in set b' 8 (variant_byte (get_or b' 8 0))

abbrev pub zero_uuid : List ℕ
zero_uuid =
    replicate 8 b'0'
    ++ b'-' ∷ replicate 4 b'0'
    ++ b'-' ∷ replicate 4 b'0'
    ++ b'-' ∷ replicate 4 b'0'
    ++ b'-' ∷ replicate 12 b'0'

-- The five groups fill the buffer from its start to its end.
unfoldable pub format : List ℕ → List ℕ
format b =
    hex_encode (slice 0 4 b)
    ++ (b'-'
        ∷ (hex_encode (slice 4 6 b)
            ++ (b'-'
                ∷ (hex_encode (slice 6 8 b)
                    ++ (b'-'
                        ∷ (hex_encode (slice 8 10 b) ++ (b'-' ∷ hex_encode (slice 10 16 b))))))))

unfoldable pub new_uuid : Option (List ℕ) → List ℕ
new_uuid none = zero_uuid
new_uuid (some b) = format (stamp b)

unfoldable pub rand_hex : ℕ → Option (List ℕ) → List ℕ
rand_hex n none = hex_encode (replicate n 0)
rand_hex n (some b) = hex_encode b

unfoldable pub new_span_id : Option (List ℕ) → List ℕ
new_span_id = rand_hex 8

unfoldable pub new_trace_id : Option (List ℕ) → List ℕ
new_trace_id = rand_hex 16
