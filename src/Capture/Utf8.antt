-- ===== src/Capture/Utf8.antt =====
-- Texts as the list of their bytes in UTF-8, as Go keeps a string.
pub mod Text
use groundcover_go.Base.{ℕ, ◌+◌, ◌/◌, ◌%◌, List, [], ◌∷◌, ltb, if◌then◌else◌}

abbrev pub Bytes : Type 0
Bytes = List ℕ

abbrev pub no_bytes : Bytes
no_bytes = []

-- the bytes of a character, by its code point
unfoldable pub utf8_char : ℕ → Bytes
utf8_char n =
    let last = 128 + n % 64 in
    let middle = 128 + n / 64 % 64 in
    if ltb n 128
    then n ∷ []
    else (if ltb n 2048
        then (192 + n / 64) ∷ last ∷ []
        else (if ltb n 65536
            then (224 + n / 4096) ∷ middle ∷ last ∷ []
            else (240 + n / 262144) ∷ (128 + n / 4096 % 64) ∷ middle ∷ last ∷ []))
