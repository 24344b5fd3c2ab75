-- ===== src/Async/Posting/Connection/Answered.antt =====
-- What a callback of client2.cpp is called with.
use smoll.Base.{
  ℕ, ◌≡◌, refl, sym, ap, ◌∙◌, List, [], ◌++◌, Bool, false, not, ◌||◌, Option, none, some, Bytes,
  c_str, All, Holds, Option-cases, Bool-cases, inl, inr,
}
use mathlib.Core.Option
use smoll.Async.Net.{ErrorCode, is_error, is_eof, success, would_block, eof, failure}
use smoll.Async.Posting.{Request, Effect, call_back, is_fatal, on_resolve}
use smoll.Async.Posting.Connection.{
  Blocking, IsBlocking, Connection, responses, talk, handle, observe, handle-on_resolve, start,
  is_open, write_request, read_response, close,
}

no_error : (ec : ErrorCode) → is_fatal ec ≡ false → is_eof ec ≡ false → ec ≡ success
no_error success fatal ending = refl
no_error would_block fatal ending = cc
no_error eof fatal ending = cc
no_error (failure n) fatal ending = cc

module _ {S : Type 0} (net : Blocking S) where
  -- Nothing has gone over the socket.
  pub record IsUnused (s : S) : Type 0 where
    pub nothing_sent : net.sent s ≡ []
    pub nothing_taken : net.taken s ≡ []

  -- Every callback that was called has got what came in, up to a NUL, and the request had gone out.
  abbrev pub IsAnswered : Request → Connection S × List Effect → Type 0
  IsAnswered r (c, es) =
      All (λ response. (net.sent c.socket ≡ r.text) × (response ≡ c_str (net.taken c.socket)))
        (responses es)

  call_back-All :
      (P : Bytes → Type 0) (o : Option ℕ) (response : Bytes)
      → P (c_str response)
      → All P (responses (call_back o response))
  unfolding call_back
  call_back-All P none response h = tt
  call_back-All P (some k) response h = (h, tt)

  talk-IsAnswered :
      (law : IsBlocking net) (r : Request) (c : Connection S)
      → IsUnused c.socket
      → IsAnswered r (talk net r c)
  unfolding talk is_open write_request read_response
  talk-IsAnswered law r c unused =
      let w = net.write c.socket r.text in
      let got = net.read w.socket in
      elim (Bool-cases (net.is_open c.socket)) [
        | inr shut ↦ rw (shut, talk) tt
        | inl up ↦ elim (Bool-cases (is_fatal w.ec)) [
          | inl failed ↦ rw (up, failed, talk) tt
          | inr passed ↦ elim (Bool-cases (is_fatal got.ec)) [
            | inl failed ↦ rw (up, passed, failed, talk) tt
            | inr ended ↦
                rw (up, passed, ended, talk)
                  (call_back-All
                    (λ response.
                      (net.sent got.socket ≡ r.text) × (response ≡ c_str (net.taken got.socket)))
                    r.respcb got.bytes (went_out passed, ap c_str (sym came_in)))
          ]
        ]
      ]
    where
      s1 : S
      s1 = (net.write c.socket r.text).socket

      went_out :
          is_fatal (net.write c.socket r.text).ec ≡ false → net.sent (net.read s1).socket ≡ r.text
      went_out passed =
          law.read_sends_nothing s1
          ∙ law.write_sends c.socket r.text (no_error _ passed (law.write_not_eof c.socket r.text))
          ∙ ap (λ l. l ++ r.text) unused.nothing_sent

      came_in : net.taken (net.read s1).socket ≡ (net.read s1).bytes
      came_in =
          law.read_takes s1
          ∙ ap (λ l. l ++ (net.read s1).bytes)
              (law.write_takes_nothing c.socket r.text ∙ unused.nothing_taken)

  -- For every request on an unused socket of an asio that keeps its contract, and whatever the resolver
  -- and the socket answer: the handler does what it does in the model of the queue, for the answer that is observed of its
  -- socket; and unless an exception leaves it, each callback that it calls gets all that came in, up
  -- to a NUL, and the whole request has gone out before.
  pub handle-IsAnswered :
      (law : IsBlocking net) (r : Request) (ec : ErrorCode) (found : Bool) (c : Connection S)
      → IsUnused c.socket
      → (Option.map (λ p. p.1) (handle net r ec found c)
          ≡ on_resolve (record { conn = c.id; request = r }) (observe net r ec found c))
        × Holds (IsAnswered r) (handle net r ec found c)
  unfolding handle start close
  handle-IsAnswered law r ec found c unused = (
    handle-on_resolve net r ec found c,
    elim (Bool-cases (is_error ec || not found)) [
      | inl failed ↦ rw (failed, handle) tt
      | inr passed ↦ elim (Option-cases (net.connect c.socket)) [
        | inl thrown ↦ rw (passed, thrown, handle, start) tt
        | inr (s, e) ↦
            rw (passed, e, handle, start)
              (talk-IsAnswered law r (record c { socket = s })
                (record {
                  nothing_sent = law.connect_sends_nothing c.socket s e ∙ unused.nothing_sent;
                  nothing_taken = law.connect_takes_nothing c.socket s e ∙ unused.nothing_taken;
                }))
      ]
    ],
  )
