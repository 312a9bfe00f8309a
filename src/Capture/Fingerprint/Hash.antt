-- ===== src/Capture/Fingerprint/Hash.antt =====
-- `hash/fnv`'s 64-bit FNV-1a over the UTF-8 of a text, and `strconv.FormatUint` in base 16.
use Prim.Native.Nat.{bit_xor}
use Prim.Native.String.{String, [], ◌∷◌, char_at}
use Prim.Native.Char.{code}
use groundcover_go.Base.{ℕ, zero, suc, ◌+◌, ◌/◌, ◌%◌, ltb, ◌==◌, if◌then◌else◌}
use groundcover_go.Base.Words.{mul64}

abbrev pub offset64 : ℕ
offset64 = 14695981039346656037

pub write_byte : ℕ → ℕ → ℕ
write_byte h b = mul64 (bit_xor h b) 1099511628211

-- the UTF-8 of a character
pub write_char : ℕ → ℕ → ℕ
write_char h n =
    let last = 128 + n % 64 in
    let middle = 128 + n / 64 % 64 in
    if ltb n 128
    then write_byte h n
    else (if ltb n 2048
        then write_byte (write_byte h (192 + n / 64)) last
        else (if ltb n 65536
            then write_byte (write_byte (write_byte h (224 + n / 4096)) middle) last
            else write_byte
                (write_byte (write_byte (write_byte h (240 + n / 262144)) (128 + n / 4096 % 64))
                  middle)
                last))

pub write : ℕ → String → ℕ
write h [] = h
write h (c ∷ s) = write (write_char h (code c)) s

-- the digits of `n` in front of `s`, `fuel` at most
format_from : ℕ → ℕ → String → String
format_from zero n s = s
format_from (suc fuel) n s =
    let s' = char_at "0123456789abcdef" (n % 16) ∷ s in
    let rest = format_from fuel (n / 16) s' in if n / 16 == 0 then s' else rest

-- A 64-bit number has 16 digits at most.
pub format_uint : ℕ → String
format_uint n = format_from 16 n []
