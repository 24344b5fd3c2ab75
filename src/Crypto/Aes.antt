-- ===== src/Crypto/Aes.antt =====
-- cpp/crypto/aes: aes-cbc_keyplain.cpp, aes-cbc_keygen.cpp and aes-ecb_keygen.cpp. CryptoPP is a
-- parameter: a cipher of each mode, where `none` is an exception, and the hexadecimal printer. What
-- the random generator fills a block with is an argument.
pub mod Fit
pub mod Recovery
use smoll.Base.{
  ℕ, zero, suc, ◌+◌, ◌-◌, ◌≤◌, ◌<◌, ◌≡◌, refl, sym, ap, ◌∙◌, List, [], ◌∷◌, ◌++◌, Bool, true, false,
  Option, none, some, Bytes, codes, ltb, if◌then◌else◌, arith, length, take, drop, replicate, All,
  length-append, length-take, length-replicate, append-nil, lt→ltb, ltb→lt, Bool-cases,
  Option-cases, inl, inr,
}

-- `AES::DEFAULT_KEYLENGTH`.
abbrev pub key_length : ℕ
key_length = 16

-- The key text is cut or filled up with '*', and its first bytes are copied. `c_str()` ends in a NUL.
unfoldable pub fit_key : Bytes → Bytes
fit_key key_plain =
    let fitted =
      if ltb key_length (length key_plain)
      then take key_length key_plain
      else if ltb (length key_plain) key_length
      then key_plain ++ replicate (key_length - length key_plain) b'*'
      else key_plain in
    take key_length (fitted ++ 0 ∷ [])

pub record CryptoPp : Type 0 where
  pub encrypt_cbc : Bytes → Bytes → Bytes → Option Bytes
  pub decrypt_cbc : Bytes → Bytes → Bytes → Option Bytes
  pub encrypt_ecb : Bytes → Bytes → Option Bytes
  pub decrypt_ecb : Bytes → Bytes → Option Bytes
  pub hex : Bytes → Bytes

-- What a program prints, a line each.
pub data Line : Type 0 where
  key_text : ℕ → Bytes → Line
  key_hex : ℕ → Bytes → Line
  iv_hex : ℕ → Bytes → Line
  plain_text : Bytes → Line
  cipher_hex : Bytes → Line
  recovered_text : Bytes → Line
  what : Line

pub record Finish : Type 0 where
  pub lines : List Line
  pub code : ℕ

-- A line in front of what the rest of the program does.
abbrev pub print : Line → Finish → Finish
print l f = record { lines = l ∷ f.lines; code = f.code }

abbrev pub failed : Finish
failed = record { lines = what ∷ []; code = 1 }

-- The second `try` block, and the end of `main`.
unfoldable pub decrypted : Option Bytes → Finish
decrypted none = failed
decrypted (some recovered) = record { lines = recovered_text recovered ∷ []; code = 0 }

-- From the first `try` block on.
unfoldable pub encrypted : (Bytes → Bytes) → (Bytes → Option Bytes) → Option Bytes → Finish
unfolding decrypted
encrypted hex decrypt none = failed
encrypted hex decrypt (some cipher) = print (cipher_hex (hex cipher)) (decrypted (decrypt cipher))

module _ (lib : CryptoPp) where
  -- aes-cbc_keyplain.cpp, for any key text and plain text.
  unfoldable pub cbc_keyplain : Bytes → Bytes → Bytes → Finish
  unfolding encrypted fit_key
  cbc_keyplain key_plain iv plain =
      let key = fit_key key_plain in
      print (key_text (length key_plain) key_plain) (
        print (key_hex (length key) (lib.hex key)) (
          print (iv_hex (length iv) (lib.hex iv)) (
            print (plain_text plain)
              (encrypted lib.hex (lib.decrypt_cbc key iv) (lib.encrypt_cbc key iv plain)))))

  -- aes-cbc_keygen.cpp.
  unfoldable pub cbc_keygen : Bytes → Bytes → Bytes → Finish
  unfolding encrypted
  cbc_keygen key iv plain = print (key_hex (length key) (lib.hex key)) (
      print (iv_hex (length iv) (lib.hex iv)) (
        print (plain_text plain)
          (encrypted lib.hex (lib.decrypt_cbc key iv) (lib.encrypt_cbc key iv plain))))

  -- aes-ecb_keygen.cpp.
  unfoldable pub ecb_keygen : Bytes → Bytes → Finish
  unfolding encrypted
  ecb_keygen key plain =
      print (plain_text plain) (encrypted lib.hex (lib.decrypt_ecb key) (lib.encrypt_ecb key plain))
