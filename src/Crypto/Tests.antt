-- ===== src/Crypto/Tests.antt =====
-- A run with a cipher that only keeps the text.
use agentic_paasd.Prelude.{◌≡◌, refl, some, Text, codes, arith, take}
use agentic_paasd.Crypto.{Cipher, encrypt, decrypt}
use agentic_paasd.Crypto.RoundTrip.{decrypt-encrypt}

abbrev plain_cipher : Cipher
plain_cipher = record {
  nonce_size = 2;
  seal = λ key nonce m. m;
  unseal = λ key nonce m. some m;
  hex_encode = λ m. m;
  hex_decode = λ m. some m;
  unseal-seal = λ key nonce m. refl;
  decode-encode = λ m. refl;
}

abbrev sample_key : Text
sample_key = codes "0123456789abcdef0123456789abcdef"

decrypt-encrypt_example :
    (sealed : Text) × (encrypt plain_cipher
        (some (codes "nn"))
        (codes "secret")
        (codes "0123456789abcdef0123456789abcdefx")
      ≡ some sealed)
    × (decrypt plain_cipher sealed sample_key ≡ some (codes "secret"))
unfolding take
decrypt-encrypt_example =
    decrypt-encrypt plain_cipher (codes "nn") (codes "secret")
      (codes "0123456789abcdef0123456789abcdefx") sample_key refl refl (omega arith) (omega arith)
