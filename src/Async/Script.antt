-- ===== src/Async/Script.antt =====
-- A scripted network on which the tests of this folder run: it keeps the contract of asio.
use smoll.Base.{
  ℕ, zero, suc, ◌≡◌, refl, ap, Bool, true, false, List, [], ◌∷◌, ◌++◌, take, length, length-take,
  arith, some,
}
use smoll.Async.Net.{ErrorCode, success, Asio, IsAsio}

-- A socket that remembers its traffic and how its reads end.
pub record Peer : Type 0 where
  pub ending : ErrorCode
  pub is_live : Bool
  pub taken : List ℕ
  pub sent : List ℕ

abbrev pub peer : ErrorCode → Peer
peer ending = record { ending = ending; is_live = true; taken = []; sent = [] }

-- Each read brings the same bytes; each write takes `chunk` bytes at most.
abbrev pub net_of : List ℕ → ℕ → Asio Peer
net_of bytes chunk = record {
  read =
      λ p. record { socket = record p { taken = p.taken ++ bytes }; bytes = bytes; ec = p.ending };
  write = λ p b. record {
    socket = record p { sent = p.sent ++ take chunk b };
    count = length (take chunk b);
    ec = success;
  };
  non_blocking = λ p. p;
  connect = λ p. some p;
  close = λ p. record p { is_live = false };
  is_open = λ p. p.is_live;
  taken = λ p. p.taken;
  sent = λ p. p.sent;
}

take-length-take : (n : ℕ) (b : List ℕ) → take n b ≡ take (length (take n b)) b
take-length-take zero b = refl
take-length-take (suc n) [] = refl
take-length-take (suc n) (x ∷ b) = ap (λ l. x ∷ l) (take-length-take n b)

pub net_of-IsAsio : (bytes : List ℕ) (chunk : ℕ) → IsAsio (net_of bytes chunk)
net_of-IsAsio bytes chunk = record {
  read_takes = λ s. refl;
  read_sends_nothing = λ s. refl;
  write_sends = λ s b. ap (λ l. s.sent ++ l) (take-length-take chunk b);
  write_takes_nothing = λ s b. refl;
  write_bounded = λ s b. omega (arith, length-take chunk b);
  close_sends_nothing = λ s. refl;
  close_takes_nothing = λ s. refl;
  close_closes = λ s. refl;
  non_blocking_sends_nothing = λ s. refl;
  non_blocking_takes_nothing = λ s. refl;
  connect_sends_nothing = λ s t e. ground arith;
  connect_takes_nothing = λ s t e. ground arith;
}

-- The network that brings "hi".
abbrev pub net : ℕ → Asio Peer
net chunk = net_of (b'h' ∷ b'i' ∷ []) chunk

pub net-IsAsio : (chunk : ℕ) → IsAsio (net chunk)
net-IsAsio chunk = net_of-IsAsio (b'h' ∷ b'i' ∷ []) chunk
