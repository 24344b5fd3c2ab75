-- ===== src/Crypto/Hex.antt =====
-- `bytes_to_hex_string` of cpp/crypto/gnutls/ocsp.cpp; cpp/opendht/crypto.cpp prints a serial number
-- by the same loop.
use smoll.Base.{
  ℕ, zero, suc, ◌+◌, ◌-◌, ◌*◌, ◌/◌, ◌%◌, ◌≤◌, ◌<◌, ◌≡◌, refl, [], ◌∷◌, ◌++◌, ◌&&◌, Option, none,
  some, Bytes, ltb, leb, if◌then◌else◌, arith, length, take, All,
}

-- A digit under `std::hex`.
unfoldable pub hex_digit : ℕ → ℕ
hex_digit d = if ltb d 10 then b'0' + d else b'a' + (d - 10)

-- `ss << (int)data[i]`, for a value below 256.
unfoldable pub hex_number : ℕ → Bytes
unfolding hex_digit
hex_number n = if ltb n 16 then hex_digit n ∷ [] else hex_digit (n / 16) ∷ hex_digit (n % 16) ∷ []

-- `std::setw(2) << std::setfill('0')`.
unfoldable pub pad2 : Bytes → Bytes
pad2 [] = b'0' ∷ b'0' ∷ []
pad2 (c ∷ []) = b'0' ∷ c ∷ []
pad2 (c ∷ d ∷ s) = c ∷ d ∷ s

-- The loop over `size` bytes; `none` is a read behind the data, which is undefined.
unfoldable pub bytes_to_hex_string : Bytes → ℕ → Option Bytes
unfolding hex_number pad2
bytes_to_hex_string s zero = some []
bytes_to_hex_string [] (suc size) = none
bytes_to_hex_string (b ∷ s) (suc size) = elim (bytes_to_hex_string s size) [
  | none ↦ none
  | some text ↦ some (pad2 (hex_number b) ++ text)
]

-- A reader of hexadecimal text, independent of the writer.
pub digit_value : ℕ → Option ℕ
digit_value c =
    if leb b'0' c && leb c b'9'
    then some (c - b'0')
    else if leb b'a' c && leb c b'f'
    then some (c - b'a' + 10)
    else none

abbrev pub byte_of : Option ℕ → Option ℕ → Option Bytes → Option Bytes
byte_of (some h) (some l) (some s) = some ((h * 16 + l) ∷ s)
byte_of (some h) (some l) none = none
byte_of (some h) none s = none
byte_of none l s = none

pub read_hex : Bytes → Option Bytes
unfolding digit_value
read_hex [] = some []
read_hex (c ∷ []) = none
read_hex (c ∷ d ∷ s) = byte_of (digit_value c) (digit_value d) (read_hex s)

abbrev pub IsByte : ℕ → Type 0
IsByte b = b < 256

digit_value-hex_digit : (d : ℕ) → d < 16 → digit_value (hex_digit d) ≡ some d
unfolding digit_value hex_digit
digit_value-hex_digit d h = ground arith

padded : (b : ℕ) → pad2 (hex_number b) ≡ hex_digit (b / 16) ∷ hex_digit (b % 16) ∷ []
unfolding pad2 hex_number
padded b = ground arith

written :
    (s : Bytes) (size : ℕ)
    → All IsByte s
    → size ≤ length s
    → (text : Bytes) × (bytes_to_hex_string s size ≡ some text)
      × (length text ≡ 2 * size)
      × (read_hex text ≡ some (take size s))
unfolding bytes_to_hex_string read_hex
written s zero h enough = ([], refl, refl, refl)
written [] (suc size) h enough = absurd (omega arith)
written (b ∷ s) (suc size) h enough =
    let (text, made, count, read) = written s size h.1 (omega arith) in
    let n : b ≡ b / 16 * 16 + b % 16 = omega arith in
    (
      hex_digit (b / 16) ∷ hex_digit (b % 16) ∷ text,
      rw (made, padded b) refl,
      omega arith,
      rw
          (
            digit_value-hex_digit (b / 16) (omega (arith, h.0)),
            digit_value-hex_digit (b % 16) (omega arith),
            read,
          )
          (ground arith),
    )

behind : (s : Bytes) (size : ℕ) → length s < size → bytes_to_hex_string s size ≡ none
unfolding bytes_to_hex_string
behind s zero h = absurd (omega arith)
behind [] (suc size) h = refl
behind (b ∷ s) (suc size) h = rw (behind s size (omega arith)) refl

-- Of data that holds bytes, the first ones, as many as asked for, are written with two digits each and
-- are read back from that text. Where more is asked for than there is, the loop reads behind the data,
-- which is undefined.
pub read_hex-bytes_to_hex_string :
    (s : Bytes) (size beyond : ℕ)
    → All IsByte s
    → size ≤ length s
    → length s < beyond
    → (text : Bytes) × (bytes_to_hex_string s size ≡ some text)
      × (length text ≡ 2 * size)
      × (read_hex text ≡ some (take size s))
      × (bytes_to_hex_string s beyond ≡ none)
read_hex-bytes_to_hex_string s size beyond h enough out =
    let (text, made, count, read) = written s size h enough in
    (text, made, count, read, behind s beyond out)
