-- ===== src/Async/Server/Closing.antt =====
-- The echo server at the end of a stream.
use smoll.Base.{◌≡◌, true, false, [], arith}
use smoll.Async.Net.{is_error, is_would_block, success, Asio, IsAsio}
use smoll.Async.Server.{Wait, Connection, complete, is_nonempty}
use smoll.Async.Server.Waiting.{IsReadArmed}

module _ {S : Type 0} (net : Asio S) where
  -- A read that brings bytes together with an error other than would_block, such as the end of the
  -- stream, closes the socket: the bytes stay in the session's buffer, nothing more is sent, and no
  -- handler is left to send them.
  final_bytes_unsent :
      (law : IsAsio net) (c : Connection S)
      → IsReadArmed net c
      → is_nonempty (net.read c.socket).bytes ≡ true
      → is_error (net.read c.socket).ec ≡ true
      → is_would_block (net.read c.socket).ec ≡ false
      → let d = complete net Wait.wait_read success c in
        (net.is_open d.socket ≡ false)
        × (d.waits ≡ [])
        × (d.session.write_buffer ≡ (net.read c.socket).bytes)
        × (net.sent d.socket ≡ net.sent c.socket)
  unfolding complete
  final_bytes_unsent law c p bytes error fatal = ground (
    arith,
    law.close_closes (net.read c.socket).socket,
    law.close_sends_nothing (net.read c.socket).socket,
    law.read_sends_nothing c.socket,
  )
