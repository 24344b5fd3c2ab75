-- ===== src/Opendht/Requests/Identity.antt =====
-- What https_2waystls.cpp sends its request with.
use smoll.Base.{ap, [], false, ◌≡◌, refl, List, ◌∷◌, Option, none, some, Bytes, codes}
use smoll.Opendht.LoadFile.{Disk, Loaded, loaded, refused, load_file}
use smoll.Opendht.Requests.{
  Event, Request, Looped, run, https_callbacks, https_request, Ended, bad_key, bad_certificate,
  looped, Crypto, with_file, with_made, https_main,
}

module _ {J : Type 0} where
  with_file-looped :
      (file : Loaded) (next : Bytes → Ended J) (l : Looped J)
      → with_file file next ≡ looped l
      → (bytes : Bytes) × (file ≡ loaded bytes) × (next bytes ≡ looped l)
  with_file-looped (refused refusal) next l e = cc
  with_file-looped (loaded bytes) next l e = (bytes, refl, e)

  with_made-looped :
      {A : Type 0} (failure : Ended J) (made : Option A) (next : A → Ended J) (l : Looped J)
      → ((m : Looped J) → ¬ (failure ≡ looped m))
      → with_made failure made next ≡ looped l
      → (a : A) × (made ≡ some a) × (next a ≡ looped l)
  with_made-looped failure none next l h e = absurd (h l e)
  with_made-looped failure (some a) next l h e = (a, refl, e)

  loop_in : Ended J → Looped J
  loop_in (looped l) = l
  loop_in _ = record { output = []; stopped = false }

  not_bad_key : (m : Looped J) → ¬ (bad_key ≡ looped m)
  not_bad_key m e = cc

  not_bad_certificate : (m : Looped J) → ¬ (bad_certificate ≡ looped m)
  not_bad_certificate m e = cc

module _ {K C J : Type 0} (disk : Disk) (crypto : Crypto K C)
    (send : Request K C → List Event) where
  -- A request for the address of the program, with the identity and the authority that were read from
  -- these files.
  pub record IsIdentified (key_path certificate_path ca_path : Bytes) (l : Looped J) : Type 0 where
    pub key_bytes : Bytes
    pub certificate_bytes : Bytes
    pub ca_bytes : Bytes
    pub key : K
    pub certificate : C
    pub ca : C
    pub key_read : load_file disk key_path ≡ loaded key_bytes
    pub certificate_read : load_file disk certificate_path ≡ loaded certificate_bytes
    pub ca_read : load_file disk ca_path ≡ loaded ca_bytes
    pub key_made : crypto.private_key key_bytes (codes "xxxx") ≡ some key
    pub certificate_made : crypto.certificate certificate_bytes ≡ some certificate
    pub ca_made : crypto.certificate ca_bytes ≡ some ca
    pub request : Request K C
    pub to_address : request.url ≡ codes "https://127.0.0.1:8080"
    pub to_root : request.target ≡ some (codes "/")
    pub no_body : request.body ≡ []
    pub own_identity : request.identity ≡ some (key, certificate)
    pub own_authority : request.authority ≡ some ca
    pub request_sent : run https_callbacks (send request) ≡ l

  -- Where https_2waystls.cpp comes to its loop, the three files were loaded, and a key, by the password,
  -- a certificate and an authority were made of them. The loop is that of a request for the root of
  -- https://127.0.0.1:8080 without a body, whose identity is this key with this certificate and whose
  -- authority is this one.
  pub https_main-IsIdentified :
      (key_path certificate_path ca_path : Bytes) (args : List Bytes) (l : Looped J)
      → https_main disk crypto send (key_path ∷ certificate_path ∷ ca_path ∷ args) ≡ looped l
      → IsIdentified key_path certificate_path ca_path l
  unfolding https_main https_request loop_in
  https_main-IsIdentified key_path certificate_path ca_path args l e =
      let (key_bytes, key_read, e1) = with_file-looped _ _ l e in
      let (key, key_made, e2) = with_made-looped bad_key _ _ l (not_bad_key) e1 in
      let (certificate_bytes, certificate_read, e3) = with_file-looped _ _ l e2 in
      let (certificate, certificate_made, e4) =
        with_made-looped bad_certificate _ _ l (not_bad_certificate) e3 in
      let (ca_bytes, ca_read, e5) = with_file-looped _ _ l e4 in
      let (ca, ca_made, e6) = with_made-looped bad_certificate _ _ l (not_bad_certificate) e5 in
      record {
        key_bytes = key_bytes;
        certificate_bytes = certificate_bytes;
        ca_bytes = ca_bytes;
        key = key;
        certificate = certificate;
        ca = ca;
        key_read = key_read;
        certificate_read = certificate_read;
        ca_read = ca_read;
        key_made = key_made;
        certificate_made = certificate_made;
        ca_made = ca_made;
        request = https_request key certificate ca;
        to_address = refl;
        to_root = refl;
        no_body = refl;
        own_identity = refl;
        own_authority = refl;
        request_sent = ap loop_in e6;
      }
