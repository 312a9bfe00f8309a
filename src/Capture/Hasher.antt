-- ===== src/Capture/Hasher.antt =====
-- hasher.go: `HMACHasher`. A text is the list of its bytes, and HMAC-SHA256 a parameter, given a key
-- and a message. The copy of the key that a hasher holds is nobody else's to change.
use groundcover_go.Base.{ℕ, ◌≡◌, refl, List, [], ◌∷◌, some}
use groundcover_go.Capture.Identifiers.{hex_encode}
use groundcover_go.Capture.Identifiers.Hex.{AreBytes, hex_decode, hex_decode-hex_encode}

pub record HmacHasher : Type 0 where
  pub key : List ℕ

pub new_hmac_hasher : List ℕ → HmacHasher
new_hmac_hasher key = record { key = key }

module _ (hmac : List ℕ → List ℕ → List ℕ) where
  -- `HashIdentity`
  pub digest_identity : HmacHasher → List ℕ → List ℕ
  digest_identity h [] = []
  digest_identity h (c ∷ value) = hex_encode (hmac h.key (c ∷ value))

  -- An empty text stays empty, and any other one becomes the digits of its digest under the key.
  pub digest_identity_lem :
      ((key message : List ℕ) → AreBytes (hmac key message))
      → (key : List ℕ)
      → (digest_identity (new_hmac_hasher key) [] ≡ [])
        × ((c : ℕ) (value : List ℕ)
            → hex_decode (digest_identity (new_hmac_hasher key) (c ∷ value))
              ≡ some (hmac key (c ∷ value)))
  unfolding digest_identity new_hmac_hasher
  digest_identity_lem bytes key =
      (refl, λ c value. hex_decode-hex_encode (hmac key (c ∷ value)) (bytes key (c ∷ value)))
