-- ===== src/Opendht/Requests.antt =====
-- cpp/opendht/http.cpp, http_errors.cpp and https_2waystls.cpp: the requests that the programs make of
-- their arguments, the callbacks, and the loop that these stop. OpenDHT's http::Request is a parameter:
-- the events that it reports for a request. The loop is held open by the work guard, so that it waits
-- where the events are over and nothing has stopped it.
pub mod Loop
pub mod Identity
pub mod Values
mod Tests
use smoll.Base.{
  ℕ, ◌≡◌, List, [], ◌∷◌, ◌++◌, Bool, true, false, not, Option, none, some, Bytes, codes, c_str,
  ◌==◌, if◌then◌else◌,
}
use smoll.Opendht.BodyLines.{Parse, Report, on_body}
use smoll.Opendht.LoadFile.{Disk, Loaded, loaded, refused, Refusal, load_file}

-- The states that the callbacks tell apart; `other` carries the number that is printed.
pub data State : Type 0 where
  receiving done : State
  other : ℕ → State

pub record Response : Type 0 where
  pub status_code : ℕ
  pub body : Bytes

pub data FieldName : Type 0 where
  host user_agent accept content_type expect : FieldName

-- A request as the programs set it up; the method is always GET. `target` is none where the library
-- takes it from the URL; an identity is a key and a certificate.
pub record Request (K C : Type 0) : Type 0 where
  pub url : Bytes
  pub target : Option Bytes
  pub fields : List (FieldName × Bytes)
  pub body : Bytes
  pub identity : Option (K × C)
  pub authority : Option C

-- What http::Request reports while the loop runs.
pub data Event : Type 0 where
  status : ℕ → Event
  body_piece : Bytes → Event
  state_change : State → Response → Event

-- What the callbacks print.
pub data Output (J : Type 0) : Type 0 where
  status_line : ℕ → Output J
  body_report : Report J → Output J
  state_line : State → ℕ → Output J
  request_text : Output J
  response_text : Bytes → Output J
  failed_with : ℕ → Output J
  request_done : Output J

-- How a run of the loop ends: `stop` was called, or it still waits.
pub record Looped (J : Type 0) : Type 0 where
  pub output : List (Output J)
  pub stopped : Bool

-- The callbacks of a program. One that is not added prints nothing.
pub record Callbacks (J : Type 0) : Type 0 where
  pub on_status : ℕ → List (Output J)
  pub on_piece : Bytes → List (Output J)
  pub shown : Response → List (Output J)

-- The state-change callback. `shown` is what it prints of the response when the request is done.
unfoldable pub on_state_change :
    {J : Type 0} → (Response → List (Output J)) → State → Response → Looped J
on_state_change shown receiving r = record {
  output = state_line receiving r.status_code ∷ request_text ∷ [];
  stopped = false;
}
on_state_change shown done r = record {
  output =
      state_line done r.status_code ∷ shown r
      ++ (if not (r.status_code == 200) then failed_with r.status_code else request_done) ∷ [];
  stopped = true;
}
on_state_change shown (other n) r = record {
  output = state_line (other n) r.status_code ∷ [];
  stopped = false;
}

module _ {J : Type 0} (callbacks : Callbacks J) where
  unfoldable pub on_event : Event → Looped J
  unfolding on_state_change
  on_event (status code) = record { output = callbacks.on_status code; stopped = false }
  on_event (body_piece bytes) = record { output = callbacks.on_piece bytes; stopped = false }
  on_event (state_change state r) = on_state_change callbacks.shown state r

  -- `io_context.run()`.
  unfoldable pub run : List Event → Looped J
  unfolding on_event
  run [] = record { output = []; stopped = false }
  run (e ∷ es) =
      let now = on_event e in
      let rest = run es in
      if now.stopped
      then now
      else record { output = now.output ++ rest.output; stopped = rest.stopped }

-- How a program ends: the usage message, an exception, undefined behaviour, or its loop.
pub data Ended (J : Type 0) : Type 0 where
  usage undefined : Ended J
  thrown : Refusal → Ended J
  bad_key bad_certificate : Ended J
  looped : Looped J → Ended J

-- The callbacks of http.cpp.
abbrev pub http_callbacks : {J : Type 0} → (Bytes → Parse J) → Callbacks J
http_callbacks parse = record {
  on_status = λ code. status_line code ∷ [];
  on_piece = λ bytes. body_report (on_body parse bytes) ∷ [];
  shown = λ r. [];
}

-- Those of http_errors.cpp.
abbrev pub errors_callbacks : {J : Type 0} → Callbacks J
errors_callbacks = record {
  on_status = λ code. [];
  on_piece = λ bytes. [];
  shown = λ r. response_text r.body ∷ [];
}

-- Those of https_2waystls.cpp: the body is printed up to a NUL.
abbrev pub https_callbacks : {J : Type 0} → Callbacks J
https_callbacks = record {
  on_status = λ code. status_line code ∷ [];
  on_piece = λ bytes. [];
  shown = λ r. response_text (c_str r.body) ∷ [];
}

abbrev pub body_of : List Bytes → Bytes
body_of [] = []
body_of (body ∷ args) = body

module _ {K C : Type 0} where
  unfoldable pub http_request : Bytes → Bytes → Request K C
  http_request url body = record {
    url = url;
    target = none;
    fields =
        (host, url)
        ∷ (user_agent, codes "RESTinio client")
        ∷ (accept, codes "*/*")
        ∷ (content_type, codes "application/json")
        ∷ (expect, codes "100-continue")
        ∷ [];
    body = body;
    identity = none;
    authority = none;
  }

  unfoldable pub errors_request : Bytes → Request K C
  errors_request http_code = record {
    url = codes "http://httpstat.us/" ++ http_code;
    target = some (codes "/" ++ http_code);
    fields =
        (host, codes "httpstat.us")
        ∷ (user_agent, codes "client")
        ∷ (accept, codes "*/*")
        ∷ (content_type, codes "application/json")
        ∷ [];
    body = [];
    identity = none;
    authority = none;
  }

  unfoldable pub https_request : K → C → C → Request K C
  https_request key certificate ca = record {
    url = codes "https://127.0.0.1:8080";
    target = some (codes "/");
    fields =
        (host, codes "127.0.0.1:8080")
        ∷ (user_agent, codes "RESTinio client")
        ∷ (accept, codes "*/*")
        ∷ (content_type, codes "application/json")
        ∷ [];
    body = [];
    identity = some (key, certificate);
    authority = some ca;
  }

  -- The three `main`s, on the arguments behind the program's name.
  unfoldable pub http_main :
      {J : Type 0} → (Bytes → Parse J) → (Request K C → List Event) → List Bytes → Ended J
  unfolding run http_request
  http_main parse send [] = usage
  http_main parse send (url ∷ args) =
      looped (run (http_callbacks parse) (send (http_request url (body_of args))))

  unfoldable pub errors_main : {J : Type 0} → (Request K C → List Event) → List Bytes → Ended J
  unfolding run errors_request
  errors_main send [] = undefined
  errors_main send (http_code ∷ args) =
      looped (run errors_callbacks (send (errors_request http_code)))

-- The constructors of PrivateKey, with the password, and of Certificate. None is an exception.
pub record Crypto (K C : Type 0) : Type 0 where
  pub private_key : Bytes → Bytes → Option K
  pub certificate : Bytes → Option C

-- The rest of `main` behind a call of `loadFile`, and behind a constructor.
abbrev pub with_file : {J : Type 0} → Loaded → (Bytes → Ended J) → Ended J
with_file (refused refusal) next = thrown refusal
with_file (loaded bytes) next = next bytes

abbrev pub with_made : {A J : Type 0} → Ended J → Option A → (A → Ended J) → Ended J
with_made failure none next = failure
with_made failure (some a) next = next a

module _ {K C : Type 0} (disk : Disk) (crypto : Crypto K C) where
  unfoldable pub https_main : {J : Type 0} → (Request K C → List Event) → List Bytes → Ended J
  unfolding run https_request
  https_main send (key_path ∷ certificate_path ∷ ca_path ∷ args) =
      with_file (load_file disk key_path) (λ key_bytes.
        with_made bad_key (crypto.private_key key_bytes (codes "xxxx")) (λ key.
          with_file (load_file disk certificate_path) (λ certificate_bytes.
            with_made bad_certificate (crypto.certificate certificate_bytes) (λ certificate.
              with_file (load_file disk ca_path) (λ ca_bytes.
                with_made bad_certificate (crypto.certificate ca_bytes) (λ ca.
                  looped (run https_callbacks (send (https_request key certificate ca)))))))))
  https_main send few = usage
