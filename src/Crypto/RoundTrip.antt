-- ===== src/Crypto/RoundTrip.antt =====
-- What Encrypt of internal/crypto/crypto.go has sealed, Decrypt opens.
use agentic_paasd.Prelude.{
  ◌≤◌, ◌≡◌, refl, ◌∙◌, false, some, [], ◌∷◌, ◌++◌, Text, length, length-append, ltb, take, arith,
}
use agentic_paasd.Crypto.{Cipher, drop, encrypt, open_with, decrypt}

take-append : (a b : Text) → take (length a) (a ++ b) ≡ a
unfolding take
take-append [] b = refl
take-append (x ∷ a) b = rw (take-append a b) refl

drop-append : (a b : Text) → drop (length a) (a ++ b) ≡ b
unfolding drop
drop-append [] b = refl
drop-append (x ∷ a) b = drop-append a b

open_with-append :
    (c : Cipher) (key nonce sealed : Text)
    → length nonce ≡ c.nonce_size
    → open_with c key (some (nonce ++ sealed)) ≡ c.unseal (take 32 key) nonce sealed
open_with-append c key nonce sealed n =
    rw (← n, take-append nonce sealed, drop-append nonce sealed)
      (ground (arith, length-append nonce sealed))

-- If the source of randomness gives a nonce of the cipher's size, then under every key of 32 bytes
-- or more what Encrypt returns is read back by Decrypt under every key, of 32 bytes or more, with the same
-- first 32 bytes.
pub decrypt-encrypt :
    (c : Cipher) (nonce m key key' : Text)
    → length nonce ≡ c.nonce_size
    → take 32 key' ≡ take 32 key
    → 32 ≤ length key'
    → 32 ≤ length key
    → (sealed : Text) × (encrypt c (some nonce) m key ≡ some sealed)
      × (decrypt c sealed key' ≡ some m)
unfolding encrypt decrypt
decrypt-encrypt c nonce m key key' n same_key long' long = (
  c.hex_encode (nonce ++ c.seal (take 32 key) nonce m),
  ground arith,
  let enough : ltb (length key') 32 ≡ false = ground arith in
      rw (enough, c.decode-encode (nonce ++ c.seal (take 32 key) nonce m))
        (open_with-append c key' nonce (c.seal (take 32 key) nonce m) n
          ∙ rw same_key (c.unseal-seal (take 32 key) nonce m)),
)
