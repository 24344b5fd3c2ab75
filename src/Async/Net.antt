-- ===== src/Async/Net.antt =====
-- What the asynchronous programs take from asio: error codes, and the calls on a TCP socket. The
-- library is a parameter: a socket is a value of any type, and a call returns the socket after it.
use smoll.Base.{ℕ, ◌≤◌, ◌≡◌, Bool, true, false, Option, some, List, ◌++◌, length, take, drop}

-- `std::error_code` as far as the programs tell values apart.
pub data ErrorCode : Type 0 where
  success would_block eof : ErrorCode
  failure : ℕ → ErrorCode

-- `if (ec)`.
abbrev pub is_error : ErrorCode → Bool
is_error success = false
is_error _ = true

-- `ec == asio::error::would_block`.
abbrev pub is_would_block : ErrorCode → Bool
is_would_block would_block = true
is_would_block _ = false

-- `ec == asio::error::eof`.
abbrev pub is_eof : ErrorCode → Bool
is_eof eof = true
is_eof _ = false

pub record Received (S : Type 0) : Type 0 where
  pub socket : S
  pub bytes : List ℕ
  pub ec : ErrorCode

pub record Written (S : Type 0) : Type 0 where
  pub socket : S
  pub count : ℕ
  pub ec : ErrorCode

-- The calls, and two observations of a socket: the bytes that the program has read from it and
-- those that it has written to it, oldest first. `connect` is the overload that throws: `none` is
-- the exception.
pub record Asio (S : Type 0) : Type 0 where
  pub read : S → Received S
  pub write : S → List ℕ → Written S
  pub non_blocking : S → S
  pub connect : S → Option S
  pub close : S → S
  pub is_open : S → Bool
  pub taken : S → List ℕ
  pub sent : S → List ℕ

-- What asio documents of these calls. A write transfers a prefix of its buffer.
pub record IsAsio {S : Type 0} (net : Asio S) : Type 0 where
  pub read_takes : (s : S) → net.taken (net.read s).socket ≡ net.taken s ++ (net.read s).bytes
  pub read_sends_nothing : (s : S) → net.sent (net.read s).socket ≡ net.sent s
  pub write_sends :
      (s : S) (b : List ℕ)
      → net.sent (net.write s b).socket ≡ net.sent s ++ take (net.write s b).count b
  pub write_takes_nothing : (s : S) (b : List ℕ) → net.taken (net.write s b).socket ≡ net.taken s
  pub write_bounded : (s : S) (b : List ℕ) → (net.write s b).count ≤ length b
  pub close_sends_nothing : (s : S) → net.sent (net.close s) ≡ net.sent s
  pub close_takes_nothing : (s : S) → net.taken (net.close s) ≡ net.taken s
  pub close_closes : (s : S) → net.is_open (net.close s) ≡ false
  pub non_blocking_sends_nothing : (s : S) → net.sent (net.non_blocking s) ≡ net.sent s
  pub non_blocking_takes_nothing : (s : S) → net.taken (net.non_blocking s) ≡ net.taken s
  pub connect_sends_nothing : (s t : S) → net.connect s ≡ some t → net.sent t ≡ net.sent s
  pub connect_takes_nothing : (s t : S) → net.connect s ≡ some t → net.taken t ≡ net.taken s

-- `asio::dynamic_buffer`: a write consumes what it transferred.
abbrev pub consume : ℕ → List ℕ → List ℕ
consume n b = drop n b
