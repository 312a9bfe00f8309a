-- ===== src/Capture/Identifiers/Decoded.antt =====
-- uuid.go: what a reader of an identifier recovers from it.
use groundcover_go.Base.{
  ℕ, ◌+◌, ◌%◌, ◌≡◌, sym, ap, ◌∙◌, ◌≢◌, List, some, length, get_or, set, arith, length-set,
  get_or-set_ne, get_or-set_self,
}
use groundcover_go.Capture.Identifiers.{version_byte, variant_byte, stamp, new_uuid}
use groundcover_go.Capture.Identifiers.Hex.{AreBytes, hex_decode, undash, hex_decode-hex_encode}
use groundcover_go.Capture.Identifiers.Groups.{undash-format, length-format}
use groundcover_go.Capture.Identifiers.Stamp.{
  stamp-AreBytes, version_byte_lem, variant_byte_lem, get_or-AreBytes,
}

-- what a reader finds in the text of a UUID that was made from the random bytes `b`
pub record Decoded (b u : List ℕ) : Type 0 where
  pub size : length u ≡ 36
  pub bytes : hex_decode (undash u) ≡ some (stamp b)
  pub version : get_or (stamp b) 6 0 ≡ 64 + get_or b 6 0 % 16
  pub variant : get_or (stamp b) 8 0 ≡ 128 + get_or b 8 0 % 64
  pub random : (i : ℕ) → i ≢ 6 → i ≢ 8 → get_or (stamp b) i 0 ≡ get_or b i 0

-- The identifier made from 16 random bytes has 36 characters. A reader that skips the dashes and
-- decodes the digits gets those bytes back, but for the six bits that mark the version, 4, and the
-- variant, binary 10.
pub new_uuid_roundtrip : (b : List ℕ) → length b ≡ 16 → AreBytes b → Decoded b (new_uuid (some b))
unfolding new_uuid stamp
new_uuid_roundtrip b n h =
    let b' : List ℕ = set b 6 (version_byte (get_or b 6 0)) in
    let v : ℕ = variant_byte (get_or b' 8 0) in
    let l = get_or-AreBytes b 6 h in
    let k : length (stamp b) ≡ 16 = length-set b' 8 v ∙ length-set b 6 _ ∙ n in
    record {
      size = length-format (stamp b) k;
      bytes =
          ap hex_decode (undash-format (stamp b) k)
          ∙ hex_decode-hex_encode (stamp b) (stamp-AreBytes b h);
      version =
          get_or-set_ne b' 8 6 v 0 (λ e. omega (arith, e))
          ∙ get_or-set_self b 6 _ 0 (omega (arith, n))
          ∙ version_byte_lem _ l;
      variant =
          get_or-set_self b' 8 v 0 (omega (arith, length-set b 6 (version_byte (get_or b 6 0)), n))
          ∙ ap variant_byte (get_or-set_ne b 6 8 _ 0 (λ e. omega (arith, e)))
          ∙ variant_byte_lem _ (get_or-AreBytes b 8 h);
      random = λ i s t.
          get_or-set_ne b' 8 i v 0 (λ e. t (sym e)) ∙ get_or-set_ne b 6 i _ 0 (λ e. s (sym e));
    }
