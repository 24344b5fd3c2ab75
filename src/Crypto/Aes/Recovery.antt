-- ===== src/Crypto/Aes/Recovery.antt =====
-- The AES programs: the key they use, what they print, and that they recover what they encrypt.
use smoll.Base.{◌≡◌, refl, List, [], ◌∷◌, ◌++◌, Option, none, some, Bytes, take, replicate, length}
use smoll.Crypto.Aes.{
  key_length, fit_key, CryptoPp, Line, key_text, key_hex, iv_hex, plain_text, cipher_hex,
  recovered_text, what, Finish, encrypted, cbc_keyplain, cbc_keygen, ecb_keygen,
}
use smoll.Crypto.Aes.Fit.{fit_key_fills}

-- What CryptoPP promises of AES: under a key of 16 bytes and a vector of one block, a text that a mode
-- encrypted is decrypted by the same key and vector.
pub record IsCipher (lib : CryptoPp) : Type 0 where
  pub cbc_inverse :
      (key iv plain cipher : Bytes)
      → length key ≡ key_length
      → length iv ≡ key_length
      → lib.encrypt_cbc key iv plain ≡ some cipher
      → lib.decrypt_cbc key iv cipher ≡ some plain
  pub ecb_inverse :
      (key plain cipher : Bytes)
      → length key ≡ key_length
      → lib.encrypt_ecb key plain ≡ some cipher
      → lib.decrypt_ecb key cipher ≡ some plain

-- The end of a program that has encrypted a text, or failed to.
abbrev pub recovery : CryptoPp → Bytes → Option Bytes → Finish
recovery lib plain none = record { lines = what ∷ []; code = 1 }
recovery lib plain (some cipher) = record {
  lines = cipher_hex (lib.hex cipher) ∷ recovered_text plain ∷ [];
  code = 0;
}

-- Such a program, with the lines in front.
abbrev pub finishing : List Line → Finish → Finish
finishing lines f = record { lines = lines ++ f.lines; code = f.code }

-- The first 16 bytes of a key text with '*' without end behind it.
abbrev pub filled : Bytes → Bytes
filled key_plain = take key_length (key_plain ++ replicate key_length b'*')

encrypted-recovery :
    (lib : CryptoPp) (plain : Bytes) (decrypt : Bytes → Option Bytes) (o : Option Bytes)
    → ((cipher : Bytes) → o ≡ some cipher → decrypt cipher ≡ some plain)
    → encrypted lib.hex decrypt o ≡ recovery lib plain o
unfolding encrypted
encrypted-recovery lib plain decrypt none h = refl
encrypted-recovery lib plain decrypt (some cipher) h = rw (h cipher refl) refl

-- For every key text and plain text, and every generated key and vector of 16 bytes: the program with
-- the key text works under the first 16 bytes of that text filled up with '*', and prints the text with
-- its length, this key with the length 16, the vector and the plain text; the two others work under the
-- generated key, and print what they do of these. Then each prints the cipher that the encryption under
-- its key gives and the very plain text, and ends with 0; or, where the encryption throws, the message
-- of the exception, and ends with 1.
pub programs_recover :
    (lib : CryptoPp) (key_plain key iv plain : Bytes)
    → IsCipher lib
    → length key ≡ key_length
    → length iv ≡ key_length
    → (cbc_keyplain lib key_plain iv plain
        ≡ finishing
            (key_text (length key_plain) key_plain
              ∷ key_hex 16 (lib.hex (filled key_plain))
              ∷ iv_hex 16 (lib.hex iv)
              ∷ plain_text plain
              ∷ [])
            (recovery lib plain (lib.encrypt_cbc (filled key_plain) iv plain)))
      × (cbc_keygen lib key iv plain
          ≡ finishing
              (key_hex 16 (lib.hex key) ∷ iv_hex 16 (lib.hex iv) ∷ plain_text plain ∷ [])
              (recovery lib plain (lib.encrypt_cbc key iv plain)))
      × (ecb_keygen lib key plain
          ≡ finishing (plain_text plain ∷ []) (recovery lib plain (lib.encrypt_ecb key plain)))
unfolding cbc_keyplain cbc_keygen ecb_keygen
programs_recover lib key_plain key iv plain law key_fits iv_fits =
    let (fills, sixteen) = fit_key_fills key_plain in
    (
      rw
          (
            encrypted-recovery lib plain (lib.decrypt_cbc (fit_key key_plain) iv) _
                (λ cipher e. law.cbc_inverse (fit_key key_plain) iv plain cipher sixteen iv_fits e),
            sixteen,
            iv_fits,
            fills,
          )
          refl,
      rw
          (
            encrypted-recovery lib plain (lib.decrypt_cbc key iv) _
                (λ cipher e. law.cbc_inverse key iv plain cipher key_fits iv_fits e),
            key_fits,
            iv_fits,
          )
          refl,
      rw
          (encrypted-recovery lib plain (lib.decrypt_ecb key) _
            (λ cipher e. law.ecb_inverse key plain cipher key_fits e))
          refl,
    )
