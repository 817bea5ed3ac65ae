-- ===== src/Crypto.antt =====
-- Encrypt, Decrypt and the generation of API keys of internal/crypto/crypto.go. AES-GCM and the
-- hexadecimal codec are the Go library's: a record of operations with the laws that it documents.
pub mod RoundTrip
pub mod Tests
use agentic_paasd.Prelude.{
  ℕ, zero, suc, ◌≡◌, Bool, true, false, Option, none, some, List, [], ◌∷◌, ◌++◌, Text, length, ltb,
  take, if◌then◌else◌,
}

-- aes.NewCipher with cipher.NewGCM under a key of 32 bytes, and encoding/hex.
pub record Cipher : Type 0 where
  pub nonce_size : ℕ
  pub seal : Text → Text → Text → Text  -- key, nonce, plaintext
  pub unseal : Text → Text → Text → Option Text  -- key, nonce, ciphertext
  pub hex_encode : Text → Text
  pub hex_decode : Text → Option Text
  pub unseal-seal : (key nonce m : Text) → unseal key nonce (seal key nonce m) ≡ some m
  pub decode-encode : (m : Text) → hex_decode (hex_encode m) ≡ some m

-- s[n:]
unfoldable pub drop : ℕ → Text → Text
drop zero s = s
drop (suc n) [] = []
drop (suc n) (c ∷ s) = drop n s

module _ (c : Cipher) where
  abbrev pub seal_with : Text → Text → Option Text → Option Text
  seal_with key plaintext none = none
  seal_with key plaintext (some nonce) =
      some (c.hex_encode (nonce ++ c.seal (take 32 key) nonce plaintext))

  -- `random` is what io.ReadFull makes of a nonce, or its failure.
  unfoldable pub encrypt : Option Text → Text → Text → Option Text
  encrypt random plaintext key =
      if ltb (length key) 32 then none else seal_with key plaintext random

  abbrev pub open_with : Text → Option Text → Option Text
  open_with key none = none
  open_with key (some text) =
      if ltb (length text) c.nonce_size
      then none
      else c.unseal (take 32 key) (take c.nonce_size text) (drop c.nonce_size text)

  unfoldable pub decrypt : Text → Text → Option Text
  decrypt ciphertext_hex key =
      if ltb (length key) 32 then none else open_with key (c.hex_decode ciphertext_hex)

  -- `bytes` is what io.ReadFull reads.
  abbrev pub hex_of : Option Text → Option Text
  hex_of none = none
  hex_of (some bytes) = some (c.hex_encode bytes)

  unfoldable pub generate_api_key : Option Text → Option Text
  generate_api_key bytes = hex_of bytes

  abbrev pub with_id : Option Text → Option Text → Option (Text × Text)
  with_id none id = none
  with_id (some secret) none = none
  with_id (some secret) (some id) = some (secret, id)

  unfoldable pub generate_api_key_with_id : Option Text → Option Text → Option (Text × Text)
  generate_api_key_with_id bytes id_bytes = with_id (generate_api_key bytes) (hex_of id_bytes)
