-- ===== src/Opendht/Serial.antt =====
-- cpp/opendht/crypto.cpp: the serial number of a certificate in hexadecimal. GnuTLS is a parameter: the
-- size that it sets and the bytes that it writes. The program does not look at what it returns.
use smoll.Base.{
  ◌≡◌, ◌+◌, List, [], ◌∷◌, ◌++◌, codes, c_str, decimal, length, arith, ◌==◌, ℕ, Option, none, some,
  Bytes, leb, if◌then◌else◌,
}
use smoll.Crypto.Hex.{bytes_to_hex_string}

-- A size above the array's is what GnuTLS asks for where it has written nothing.
pub record Serial : Type 0 where
  pub size : ℕ
  pub bytes : Bytes

abbrev pub serial_capacity : ℕ
serial_capacity = 64

-- The text, or none where the loop leaves the array, or reads what was not written.
unfoldable pub serial_text : Serial → Option Bytes
unfolding bytes_to_hex_string
serial_text serial =
    if leb serial.size serial_capacity then bytes_to_hex_string serial.bytes serial.size else none

-- What the library says of a certificate, and the name that the compiler gives to the type of the size.
pub record Certificate : Type 0 where
  pub text : Bytes
  pub uid : Bytes
  pub serial : Serial
  pub serial_number : Bytes

-- The lines in front of the loop, and the arguments of the `printf` behind it.
pub record Printed : Type 0 where
  pub lines : List Bytes
  pub arguments : List Bytes

-- The literals of the certificate, which the compiler joins: the text is one line.
abbrev cert_literals : List Bytes
cert_literals =
    codes "-----BEGIN CERTIFICATE-----"
    ∷ codes "MIICDjCCAZSgAwIBAgIIS90uAKp+u/swCgYIKoZIzj0EAwMwTDEQMA4GA1UEAxMH"
    ∷ codes "ZGh0bm9kZTE4MDYGCgmSJomT8ixkAQETKDBlNDQxZTA4YWJmYTQzYTc3ZTVjZDBm"
    ∷ codes "Y2QzMzAzMTc4MjYxMTk0MzIwHhcNMTkxMTA3MDA0MTMwWhcNMjkxMTA0MDA0MTMw"
    ∷ codes "WjBMMRAwDgYDVQQDEwdkaHRub2RlMTgwNgYKCZImiZPyLGQBARMoMGU0NDFlMDhh"
    ∷ codes "YmZhNDNhNzdlNWNkMGZjZDMzMDMxNzgyNjExOTQzMjB2MBAGByqGSM49AgEGBSuB"
    ∷ codes "BAAiA2IABCZ7sBp0Pu+b5yIifoNXchU9crv9won0in++COWynvM4GCLF2Gk6QGhh"
    ∷ codes "YLDxNGsyQjGR7z5AGibvYhNLU0JA4RbmxYWHw4g3wBrPA1jm9hGZ8y5Y8R97d0Hl"
    ∷ codes "VpyreEMjRKNDMEEwHQYDVR0OBBYEFA5EHgir+kOnflzQ/NMwMXgmEZQyMA8GA1Ud"
    ∷ codes "EwEB/wQFMAMBAf8wDwYDVR0PAQH/BAUDAwcGADAKBggqhkjOPQQDAwNoADBlAjEA"
    ∷ codes "kKF/6WReNytwSrJ8JSTToc7xWS5SvAa23Fnla4mywZUxUFS4VSxCMQTjQCknO3iZ"
    ∷ codes "AjBgxXyXYqn0d7vz7S6oAY5TdaD5YFT5MD2c1MAAp8pxQSwdPa9k0ZSoGIEn31Z0"
    ∷ codes "GxU="
    ∷ codes "-----END CERTIFICATE-----"
    ∷ []

abbrev joined : List Bytes → Bytes
joined [] = []
joined (literal ∷ literals) = literal ++ joined literals

unfoldable pub cert_pem : Bytes
cert_pem = joined cert_literals

-- `make_certificate` is what the library makes of the text.
unfoldable pub main : Bytes → (Bytes → Certificate) → Option Printed
unfolding serial_text cert_pem
main type_name make_certificate =
    let certificate = make_certificate cert_pem in
    elim (serial_text certificate.serial) [
      | none ↦ none
      | some number ↦ some (record {
        lines =
            (codes "size=" ++ (decimal serial_capacity ++ (codes " name=" ++ type_name)))
            ∷ decimal certificate.serial.size
            ∷ [];
        arguments =
            c_str certificate.text
            ∷ c_str certificate.uid
            ∷ c_str number
            ∷ c_str certificate.serial_number
            ∷ [];
      })
    ]

-- The format of that `printf`, and the arguments that it takes: one more than it is given.
abbrev pub format : Bytes
format = codes "Certificate:\n%s\n\nUID: %s\nSN:  %s %s true=%s\n"

conversions : Bytes → ℕ
conversions [] = 0
conversions (c ∷ s) = (if c == b'%' then 1 else 0) + conversions s

main_lacks_argument :
    (type_name : Bytes) (make_certificate : Bytes → Certificate) (printed : Printed)
    → main type_name make_certificate ≡ some printed
    → conversions format ≡ length printed.arguments + 1
unfolding main conversions
main_lacks_argument type_name make_certificate printed h =
    let four : length printed.arguments ≡ 4 = ground arith in omega arith
