-- ===== src/Http/Arguments/Sent.antt =====
-- What the arguments of the client come to: the port, and the message that the server reads.
use smoll.Base.{
  ℕ, ◌+◌, ◌-◌, ◌*◌, ◌%◌, ◌<◌, ◌≡◌, ◌≢◌, same_text_ne, refl, ap, ◌∙◌, List, [], ◌∷◌, ◌++◌, some,
  Bytes, codes, arith, decimal, decimal-IsDigit, IsDigit, value_from, value_from-decimal, All,
  All-append, All-imp, Lacks, length,
}
use smoll.Http.Request.{ok, invalid_argument, Header, keep_alive, connection_text}
use smoll.Http.Request.Reader.{Message, read_message, IsCleanField, OneLine}
use smoll.Http.Request.Lines.{version_text, connection_field, length_fields, sent_body}
use smoll.Http.Request.RoundTrip.{read_message-create}
use smoll.Http.Arguments.{
  atoi_digits, port_of, Restinio, usage, requested, method_of, header_fields, request_of, body_of,
  main,
}

atoi_digits-value : (n : ℕ) (s : Bytes) → All IsDigit s → atoi_digits n s ≡ value_from n s
unfolding atoi_digits
atoi_digits-value n [] h = refl
atoi_digits-value n (c ∷ s) h = ground (arith, atoi_digits-value (n * 10 + (c - b'0')) s h.1, h.0)

port_of-digits : (s : Bytes) → All IsDigit s → port_of s ≡ value_from 0 s % 65536
unfolding port_of
port_of-digits [] h = refl
port_of-digits (c ∷ s) h = ground (arith, atoi_digits-value 0 (c ∷ s) h, h.0)

-- The port of a decimal number is that number's remainder by 2 ^ 16: a port of 65536 or more is
-- taken for another one, with no error.
pub port_of-decimal : (n : ℕ) → port_of (decimal n) ≡ n % 65536
port_of-decimal n =
    port_of-digits (decimal n) (decimal-IsDigit n) ∙ ap (λ m. m % 65536) (value_from-decimal n)

module _ {M : Type 0} (lib : Restinio M) where
  -- The library's texts stand on one line, without the characters at which a reader cuts.
  pub record IsPlain : Type 0 where
    pub host_line : OneLine lib.host
    pub host_colon : Lacks b':' lib.host
    pub agent_line : OneLine lib.user_agent
    pub agent_colon : Lacks b':' lib.user_agent
    pub accept_line : OneLine lib.accept
    pub accept_colon : Lacks b':' lib.accept
    pub method_line : (m : M) → OneLine (lib.method_to_string m)
    pub method_space : (m : M) → Lacks b' ' (lib.method_to_string m)

  abbrev pub header_of : M → Bytes → Header M
  header_of method target = record {
    method = method;
    target = target;
    major = lib.major;
    minor = lib.minor;
  }

  pub header_fields-clean :
      (addr : Bytes) (port : ℕ)
      → IsPlain
      → OneLine addr
      → All IsCleanField (header_fields lib addr port)
  unfolding header_fields
  header_fields-clean addr port plain one_line = (
    record {
      name_line = plain.host_line;
      name_colon = plain.host_colon;
      value_line =
          All-append (λ c. c ≢ 13) addr (codes ":" ++ decimal port) one_line
            (
              omega arith,
              All-imp IsDigit (λ c. c ≢ 13) (decimal port) (λ c d. omega arith)
                  (decimal-IsDigit port),
            );
    },
    (
      record {
        name_line = plain.agent_line;
        name_colon = plain.agent_colon;
        value_line = omega arith;
      },
      (
        record {
          name_line = plain.accept_line;
          name_colon = plain.accept_colon;
          value_line = omega arith;
        },
        tt,
      ),
    ),
  )

  -- The message that the arguments mean.
  abbrev pub intended : Bytes → Bytes → Bytes → Bytes → M → Message
  intended addr port_text target body method = record {
    method = lib.method_to_string method;
    target = target;
    version = version_text (header_of method target);
    fields =
        header_fields lib addr (port_of port_text)
        ++ connection_field (codes "keep-alive") ∷ length_fields body;
    rest = sent_body body;
  }

  -- For a method that the program knows, an address without CR, a target without space and CR, and
  -- library texts that are plain: the program sends a request, and the server that reads it finds the
  -- method, the target, the version, the fields Host (the address, a colon and the port), User-Agent
  -- and Accept, "Connection: keep-alive", and the Content-Length of a body that is not empty; then
  -- the body and a CRLF, or nothing.
  pub main-message :
      (method_str addr port_text target : Bytes) (args : List Bytes) (method : M)
      → IsPlain
      → OneLine addr
      → OneLine target
      → Lacks b' ' target
      → method_of lib method_str ≡ ok method
      → (text : Bytes) × (main lib (method_str ∷ addr ∷ port_text ∷ target ∷ args)
          ≡ requested (ok text))
        × (read_message text ≡ some (intended addr port_text target (body_of lib args) method))
  unfolding main
  main-message method_str addr port_text target args method plain a t s e =
      let (text, made, read) =
        read_message-create lib.method_to_string (header_of method target)
          (header_fields lib addr (port_of port_text)) keep_alive (body_of lib args)
          (codes "keep-alive")
          (record {
            method_line = plain.method_line method;
            method_space = plain.method_space method;
            target_line = t;
            target_space = s;
          })
          (header_fields-clean addr (port_of port_text) plain a) (unfold connection_text in refl) in
      (text, rw (e, main, request_of) (ap requested made), read)

  main-few : (few : List Bytes) → length few < 4 → main lib few ≡ usage
  unfolding main
  main-few [] h = refl
  main-few (a ∷ []) h = refl
  main-few (a ∷ b ∷ []) h = refl
  main-few (a ∷ b ∷ c ∷ []) h = refl
  main-few (a ∷ b ∷ c ∷ d ∷ few) h = absurd (omega arith)

  -- A method that is neither "get" nor "post" ends the program by an exception that names it, and
  -- fewer than four arguments by the usage message.
  pub main_refusals :
      (method_str addr port_text target : Bytes) (args few : List Bytes)
      → method_str ≢ codes "get"
      → method_str ≢ codes "post"
      → length few < 4
      → (main lib (method_str ∷ addr ∷ port_text ∷ target ∷ args)
          ≡ requested (invalid_argument method_str))
        × (main lib few ≡ usage)
  unfolding main
  main_refusals m addr port_text target args few not_get not_post h = (unknown, main-few few h)
    where
      unknown : main lib (m ∷ addr ∷ port_text ∷ target ∷ args) ≡ requested (invalid_argument m)
      unknown = rw (
        same_text_ne m (codes "get") not_get,
        same_text_ne m (codes "post") not_post,
        main,
        request_of,
        method_of,
      )
