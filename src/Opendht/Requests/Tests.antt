-- ===== src/Opendht/Requests/Tests.antt =====
-- The requests of the OpenDHT programs: the theorems at concrete inputs.
use smoll.Base.{◌≡◌, refl, List, [], ◌∷◌, ◌++◌, some, true, false, Bytes, codes}
use smoll.Opendht.LoadFile.{Disk, regular, load_file, loaded, load_file-regular}
use smoll.Opendht.Requests.{
  Callbacks, Event, status, state_change, receiving, done, Response, Request, run, errors_callbacks,
  https_callbacks, Looped, Crypto, https_main,
}
use smoll.Opendht.Requests.Loop.{outputs, last_output, run-stops}
use smoll.Opendht.Requests.Identity.{IsIdentified, https_main-IsIdentified}

abbrev disk : Disk
disk path = some (regular path)

load_file-regular_example : load_file disk (codes "key") ≡ loaded (codes "key")
load_file-regular_example = load_file-regular disk (codes "key") (codes "key") refl

abbrev not_found : Response
not_found = record { status_code = 404; body = codes "no" }

abbrev before : List Event
before = status 404 ∷ state_change receiving not_found ∷ []

abbrev shown_callbacks : Callbacks Bytes
shown_callbacks = errors_callbacks

run-stops_example :
    (run shown_callbacks (before ++ state_change done not_found ∷ before) ≡ record {
      output = outputs shown_callbacks before ++ last_output shown_callbacks not_found;
      stopped = true;
    })
    × (run shown_callbacks before
        ≡ record { output = outputs shown_callbacks before; stopped = false })
run-stops_example = run-stops shown_callbacks before before not_found (refl, (refl, tt))

-- Keys and certificates are their texts.
abbrev crypto : Crypto Bytes Bytes
crypto = record { private_key = λ text password. some text; certificate = λ text. some text }

abbrev send : Request Bytes Bytes → List Event
send r = state_change done not_found ∷ []

abbrev one_run : Looped Bytes
one_run = run https_callbacks (state_change done not_found ∷ [])

https_main-IsIdentified_example :
    IsIdentified disk crypto send (codes "key") (codes "crt") (codes "ca") one_run
unfolding https_main load_file
https_main-IsIdentified_example =
    https_main-IsIdentified disk crypto send (codes "key") (codes "crt") (codes "ca") [] one_run
      refl
