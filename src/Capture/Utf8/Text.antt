-- ===== src/Capture/Utf8/Text.antt =====
-- The bytes of a text.
use Prim.Native.String.{String, [], ◌∷◌}
use Prim.Native.Char.{code}
use groundcover_go.Base.{◌++◌}
use groundcover_go.Capture.Utf8.{Bytes, no_bytes, utf8_char}

unfoldable pub utf8 : String → Bytes
utf8 [] = no_bytes
utf8 (c ∷ s) = utf8_char (code c) ++ utf8 s
