-- ===== src/Http/Fixtures.antt =====
-- The data that the tests of the HTTP clients share.
use smoll.Base.{
  true, ℕ, ◌≢◌, sym, append_assoc, All, List, [], ◌∷◌, ◌++◌, false, some, Bytes, codes, arith,
}
use smoll.Async.Net.{ErrorCode, success, eof}
use smoll.Http.Exchange.{Parser}
use smoll.Http.Exchange.Whole.{IsIncremental}
use smoll.Http.Arguments.{Restinio}
use smoll.Http.Arguments.Sent.{IsPlain}
use smoll.Http.Methods.{Numbers, StandardMethods}
use smoll.Http.Program.{Network}

-- A parser that keeps what it is fed.
abbrev pub keeper : Parser Bytes
keeper = record { execute = λ p s. p ++ s; is_failed = λ p. false }

pub keeper-IsIncremental : IsIncremental keeper
keeper-IsIncremental = record { execute_append = λ p a b h k. sym (append_assoc p a b) }

abbrev pub in_pieces : List (Bytes × ErrorCode)
in_pieces = (codes "AD", success) ∷ (codes "BO", success) ∷ ([], eof) ∷ []

-- A restinio whose methods are two.
pub data Verb : Type 0 where
  verb_get verb_post : Verb

abbrev pub verb_text : Verb → Bytes
verb_text verb_get = codes "GET"
verb_text verb_post = codes "POST"

abbrev pub verbs : Restinio Verb
verbs = record {
  http_get = verb_get;
  http_post = verb_post;
  method_to_string = verb_text;
  host = codes "Host";
  user_agent = codes "User-Agent";
  accept = codes "Accept";
  major = 1;
  minor = 1;
}

pub verbs-IsPlain : IsPlain verbs
verbs-IsPlain = record {
  host_line = omega arith;
  host_colon = omega arith;
  agent_line = omega arith;
  agent_colon = omega arith;
  accept_line = omega arith;
  accept_colon = omega arith;
  method_line = λ m. elim m as (λ v. All (λ c. c ≢ 13) (verb_text v)) [
    | verb_get ↦ omega arith
    | verb_post ↦ omega arith
  ];
  method_space = λ m. elim m as (λ v. All (λ c. c ≢ 32) (verb_text v)) [
    | verb_get ↦ omega arith
    | verb_post ↦ omega arith
  ];
}

abbrev pub ids : Numbers
ids = record {
  listen = 34;
  stats = 35;
  sign = 36;
  encrypt = 37;
  default_from_nodejs = λ k. record { raw_id = k; name = [] };
}

abbrev pub std : StandardMethods
std = record {
  http_method_get = record { raw_id = 1; name = codes "GET" };
  http_method_post = record { raw_id = 3; name = codes "POST" };
}

-- An IPv4 host that answers every request in three pieces. A socket is what was written to it.
abbrev pub host : Network Bytes ℕ Bytes
host = record {
  from_string = λ text. some text;
  is_v4 = λ a. true;
  to_text = λ a. a;
  resolve = λ four name service. some (0 ∷ []);
  connect = λ ends. some [];
  write = λ socket text. some (socket ++ text);
  read_until = λ socket mark. some (codes "HE", socket);
  reads = λ socket. in_pieces;
  spent = λ socket. socket;
  close = λ socket. socket;
}
