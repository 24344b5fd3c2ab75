-- ===== src/Crypto/Tests.antt =====
-- The programs of cpp/crypto on small peers: the theorems at concrete inputs.
use smoll.Base.{
  ℕ, ◌<◌, zero, suc, replicate, ◌≡◌, refl, sym, ap, [], ◌∷◌, true, Option, none, some, Bytes, codes,
  arith, replicate, length, same_text,
}
use smoll.Crypto.Hex.{bytes_to_hex_string, read_hex, read_hex-bytes_to_hex_string}
use smoll.Crypto.Aes.{
  CryptoPp, key_text, key_hex, iv_hex, plain_text, cipher_hex, recovered_text, cbc_keyplain,
  cbc_keygen, ecb_keygen,
}
use smoll.Crypto.Aes.Recovery.{IsCipher, recovery, finishing, programs_recover}
use smoll.Crypto.Ocsp.{
  Gnutls, Access, unknown_algorithm, not_available, address, load_certs, load_cert,
  generate_request, ocsp_response, find_responder, World, main, finished,
}
use smoll.Crypto.Ocsp.Verified.{Checked, main-Checked}
use smoll.Crypto.Ocsp.Finished.{main_finishes}
use smoll.Crypto.Ocsp.Files.{Kept, written, main-Kept}
use smoll.Crypto.ValidCa
use smoll.Crypto.ValidCa.Loops.{answering, main_ignores_handshake}

read_hex-bytes_to_hex_string_example :
    (text : Bytes) × (bytes_to_hex_string (10 ∷ 255 ∷ 0 ∷ []) 2 ≡ some text)
    × (length text ≡ 4)
    × (read_hex text ≡ some (10 ∷ 255 ∷ []))
    × (bytes_to_hex_string (10 ∷ 255 ∷ 0 ∷ []) 4 ≡ none)
read_hex-bytes_to_hex_string_example =
    read_hex-bytes_to_hex_string (10 ∷ 255 ∷ 0 ∷ []) 2 4
      (omega arith, (omega arith, (omega arith, tt))) (omega arith) (omega arith)

hex_text : bytes_to_hex_string (10 ∷ 255 ∷ 0 ∷ []) 3 ≡ some (codes "0aff00")
unfolding bytes_to_hex_string
hex_text = refl

-- A cipher that puts one byte in front of a text.
abbrev uncover : Bytes → Option Bytes
uncover [] = none
uncover (c ∷ s) = some s

abbrev library : CryptoPp
library = record {
  encrypt_cbc = λ key iv plain. some (length key ∷ plain);
  decrypt_cbc = λ key iv cipher. uncover cipher;
  encrypt_ecb = λ key plain. some (length key ∷ plain);
  decrypt_ecb = λ key cipher. uncover cipher;
  hex = λ s. s;
}

uncover_covered :
    (n : ℕ) (plain cipher : Bytes) → some (n ∷ plain) ≡ some cipher → uncover cipher ≡ some plain
uncover_covered n plain cipher h = ap uncover_some (sym h)
  where
    uncover_some : Option Bytes → Option Bytes
    uncover_some none = none
    uncover_some (some s) = uncover s

library-IsCipher : IsCipher library
library-IsCipher = record {
  cbc_inverse = λ key iv plain cipher k i h. uncover_covered (length key) plain cipher h;
  ecb_inverse = λ key plain cipher k h. uncover_covered (length key) plain cipher h;
}

-- A key text of one byte.
programs_recover_example :
    let key : Bytes = replicate 16 7 in
    let iv : Bytes = replicate 16 9 in
    let own_key : Bytes = b'k' ∷ replicate 15 b'*' in
    (cbc_keyplain library (codes "k") iv (codes "plain") ≡ record {
      lines =
          key_text 1 (codes "k")
          ∷ key_hex 16 own_key
          ∷ iv_hex 16 iv
          ∷ plain_text (codes "plain")
          ∷ cipher_hex (16 ∷ codes "plain")
          ∷ recovered_text (codes "plain")
          ∷ [];
      code = 0;
    })
    × (cbc_keygen library key iv (codes "plain")
        ≡ finishing
            (key_hex 16 key ∷ iv_hex 16 iv ∷ plain_text (codes "plain") ∷ [])
            (recovery library (codes "plain") (some (16 ∷ codes "plain"))))
    × (ecb_keygen library key (codes "plain")
        ≡ finishing
            (plain_text (codes "plain") ∷ [])
            (recovery library (codes "plain") (some (16 ∷ codes "plain"))))
programs_recover_example =
    programs_recover library (codes "k") (replicate 16 7) (replicate 16 9) (codes "plain")
      library-IsCipher refl refl

-- Certificates, requests and responses are texts; a response repeats the nonce of its request. The
-- first entry of a certificate is of another kind, and the second one is the address.
abbrev accesses : ℕ → Access
accesses zero = unknown_algorithm
accesses (suc zero) = address (codes "http://ca")
accesses (suc (suc n)) = not_available

abbrev tls : Gnutls Bytes Bytes Bytes
tls = record {
  import_list = λ s. some s;
  authority_access = λ cert k. accesses k;
  req_init = some [];
  req_add_cert = λ q issuer cert. some q;
  req_set_nonce = λ q nonce. some nonce;
  req_export = λ q. some q;
  resp_init = some tt;
  resp_import = λ s. some s;
  resp_print = λ r. some r;
  resp_check_crt = λ r cert. some tt;
  resp_get_nonce = λ r. some r;
  resp_verify_direct = λ r signer. some 0;
}

abbrev world : World
world = record {
  files = λ name. some name;
  random = some (codes "nonce");
  post = λ uri req. (req, some (length req));
}

-- The second round finds the address.
main_finishes_example :
    main tls world 2 (codes "c" ∷ codes "i" ∷ codes "s" ∷ []) ≡ some (finished 0)
unfolding load_certs load_cert generate_request
main_finishes_example =
    main_finishes tls world (codes "c") (codes "i") (codes "s") [] (codes "c") (codes "i")
      (codes "s") 1 2 5 0 (codes "http://ca") (codes "nonce") (codes "nonce") (codes "nonce") refl
      (omega arith) (λ k h. first k h) refl refl refl refl
      (record {
        resp = codes "nonce";
        not_empty = λ h. cc;
        initialised = refl;
        imported = refl;
        printed = (codes "nonce", refl);
        about_cert = refl;
        same_nonce = refl;
        verified = refl;
      })
  where
    first : (k : ℕ) → k < 1 → accesses k ≡ unknown_algorithm
    first zero h = refl
    first (suc k) h = absurd (omega arith)

main-Checked_example : Checked tls world (codes "c") (codes "i") (codes "s") 0
unfolding main load_cert find_responder generate_request ocsp_response same_text
main-Checked_example = main-Checked tls world 2 (codes "c") (codes "i") (codes "s") [] 0 refl

main-Kept_example :
    Kept tls world
      (load_certs tls world (codes "c") (codes "i") (codes "s"))
      (written tls world 2 (codes "c" ∷ codes "i" ∷ codes "s" ∷ []))
      0
unfolding main load_cert find_responder generate_request ocsp_response same_text
main-Kept_example = main-Kept tls world 2 (codes "c") (codes "i") (codes "s") [] 0 refl

two_files :
    written tls world 2 (codes "c" ∷ codes "i" ∷ codes "s" ∷ [])
    ≡ (codes "ocsp-request.bin", codes "nonce") ∷ (codes "ocsp-response.bin", codes "nonce") ∷ []
unfolding written load_certs load_cert find_responder generate_request
two_files = refl

abbrev peer : ValidCa.Peer
peer = record {
  socket_open = true;
  valid_address = true;
  setup = true ∷ [];
  connects = true;
  handshakes = ValidCa.again ∷ ValidCa.bad_certificate true ∷ [];
  status_printed = true;
  sends = ValidCa.interrupted ∷ ValidCa.done 37 ∷ [];
  receives = ValidCa.done 0 ∷ [];
}

main_ignores_handshake_example :
    ValidCa.main 5 peer ≡ ValidCa.main 5 (answering (ValidCa.done 0) peer)
unfolding ValidCa.handshake
main_ignores_handshake_example =
    main_ignores_handshake 5 peer (ValidCa.bad_certificate true) refl refl

rejected_certificate_succeeds : ValidCa.main 5 peer ≡ ValidCa.succeeded
unfolding ValidCa.main ValidCa.loop_check
rejected_certificate_succeeds = refl
