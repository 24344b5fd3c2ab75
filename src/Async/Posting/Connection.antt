-- ===== src/Async/Posting/Connection.antt =====
-- `Connection` of client2.cpp, and the resolver's handler on it: what `Async.Posting` takes as the answer to a
-- request is observed of a socket here.
pub mod Answered
pub mod Echo
mod Tests
use smoll.Base.{
  ℕ, ◌≡◌, refl, sym, ap, ◌∙◌, List, [], ◌∷◌, ◌++◌, Bool, true, false, not, ◌||◌, Option, none, some,
  Bytes, c_str, if◌then◌else◌, arith, All, Holds, Option-cases, Bool-cases, inl, inr,
}
use mathlib.Core.Option
use smoll.Async.Net.{ErrorCode, is_error, is_eof, success, Received, Written}
use smoll.Async.Posting.{
  Request, Resolving, Effect, closed, connected, written, read, called, Answer, call_back, is_fatal,
  on_resolve,
}

-- The blocking calls on a socket. `connect` throws: `none`. `read` reads to the end of the stream, and
-- `write` writes its whole buffer, if no error ends them before.
pub record Blocking (S : Type 0) : Type 0 where
  pub connect : S → Option S
  pub read : S → Received S
  pub write : S → Bytes → Written S
  pub close : S → S
  pub is_open : S → Bool
  pub taken : S → Bytes
  pub sent : S → Bytes

-- What asio documents of them: the end of the stream is an error of reads alone.
pub record IsBlocking {S : Type 0} (net : Blocking S) : Type 0 where
  pub connect_sends_nothing : (s t : S) → net.connect s ≡ some t → net.sent t ≡ net.sent s
  pub connect_takes_nothing : (s t : S) → net.connect s ≡ some t → net.taken t ≡ net.taken s
  pub write_sends :
      (s : S) (b : Bytes)
      → (net.write s b).ec ≡ success
      → net.sent (net.write s b).socket ≡ net.sent s ++ b
  pub write_takes_nothing : (s : S) (b : Bytes) → net.taken (net.write s b).socket ≡ net.taken s
  pub write_not_eof : (s : S) (b : Bytes) → is_eof (net.write s b).ec ≡ false
  pub read_takes : (s : S) → net.taken (net.read s).socket ≡ net.taken s ++ (net.read s).bytes
  pub read_sends_nothing : (s : S) → net.sent (net.read s).socket ≡ net.sent s

pub record Connection (S : Type 0) : Type 0 where
  pub id : ℕ
  pub socket : S

-- The texts that callbacks are called with.
abbrev pub responses : List Effect → List Bytes
responses [] = []
responses (called k response ∷ es) = response ∷ responses es
responses (e ∷ es) = responses es

module _ {S : Type 0} (net : Blocking S) where
  -- `start`, which throws where asio's `connect` does.
  unfoldable pub start : Connection S → Option (Connection S)
  start c = Option.map (λ s. record c { socket = s }) (net.connect c.socket)

  unfoldable pub is_open : Connection S → Bool
  is_open c = net.is_open c.socket

  unfoldable pub read_response : Connection S → Connection S × Received S
  read_response c = let r = net.read c.socket in (record c { socket = r.socket }, r)

  unfoldable pub write_request : Bytes → Connection S → Connection S × ErrorCode
  write_request request c =
      let w = net.write c.socket request in (record c { socket = w.socket }, w.ec)

  unfoldable pub close : Connection S → Connection S
  close c = record c { socket = net.close c.socket }

  -- The handler behind `start`.
  unfoldable pub talk : Request → Connection S → Connection S × List Effect
  unfolding is_open write_request read_response
  talk r c =
      if not (is_open c)
      then (c, connected (c.id) ∷ [])
      else let (d, write_ec) = write_request r.text c in
        if is_fatal write_ec
        then (d, connected (c.id) ∷ written (c.id) r.text ∷ [])
        else let (e, got) = read_response d in
          if is_fatal got.ec
          then (e, connected (c.id) ∷ written (c.id) r.text ∷ read (c.id) ∷ [])
          else (
            e,
            connected (c.id) ∷ written (c.id) r.text ∷ read (c.id) ∷ call_back r.respcb got.bytes,
          )

  -- The resolver's handler on the connection that it holds; `none` is the exception of `start`.
  unfoldable pub handle :
      Request → ErrorCode → Bool → Connection S → Option (Connection S × List Effect)
  unfolding start close talk
  handle r ec found c =
      if is_error ec || not found
      then some (close c, closed (c.id) ∷ [])
      else Option.map (talk r) (start c)

  -- What `Async.Posting` calls the answer, where the socket once connected is `s`.
  abbrev pub answer_of : Request → ErrorCode → Bool → Bool → S → Answer
  answer_of r ec found connects s =
      let w = net.write s r.text in
      let got = net.read w.socket in
      record {
        resolve_ec = ec;
        found = found;
        connects = connects;
        opened = net.is_open s;
        write_ec = w.ec;
        read_ec = got.ec;
        data_read = got.bytes;
      }

  abbrev pub observe : Request → ErrorCode → Bool → Connection S → Answer
  observe r ec found c = elim (net.connect c.socket) [
    | none ↦ answer_of r ec found false c.socket
    | some s ↦ answer_of r ec found true s
  ]

  pub handle-on_resolve :
      (r : Request) (ec : ErrorCode) (found : Bool) (c : Connection S)
      → Option.map (λ p. p.1) (handle r ec found c)
        ≡ on_resolve (record { conn = c.id; request = r }) (observe r ec found c)
  unfolding on_resolve handle start talk is_open write_request read_response
  handle-on_resolve r ec found c = elim (Option-cases (net.connect c.socket)) [
    | inl e ↦ rw (e, start) (ground arith)
    | inr (s, e) ↦ rw (e, start) (ground arith)
  ]
