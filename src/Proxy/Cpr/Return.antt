-- ===== src/Proxy/Cpr/Return.antt =====
-- From every state of the two threads `run` can still return: no notification is lost, and no lock is
-- waited for without end.
use smoll.Base.{ℕ, zero, suc, ◌+◌, ◌*◌, ◌<◌, ◌≡◌, ◌≢◌, refl, Bool, none, arith, ◌⊎◌, inl, inr}
use smoll.Proxy.Cpr.{
  MainPc, entered, locked, spawned, waiting, woken, resumed, returned, PollPc, absent, started,
  configuring, notifying, leaving, polling, testing, System, constructed, Step, lock_server, spawn,
  wait, resume, return, lock_config, set_option, notify, unlock_config, Steps, here, later,
}
use smoll.Proxy.Cpr.Invariant.{Inv, Steps-Inv, Step-Inv}

abbrev main_rank : MainPc → ℕ
main_rank entered = 6
main_rank locked = 5
main_rank spawned = 4
main_rank waiting = 3
main_rank woken = 2
main_rank resumed = 1
main_rank returned = 0

abbrev poll_rank : PollPc → ℕ
poll_rank started = 4
poll_rank configuring = 3
poll_rank notifying = 2
poll_rank leaving = 1
poll_rank p = 0

rank : System → ℕ
rank s = 8 * main_rank s.main + poll_rank s.poll

module _ (spurious : Bool) where
  -- A step that brings the return nearer.
  abbrev Nearer : System → Type 0
  Nearer s = (t : System) × Step spurious s t × (rank t < rank s)

  -- The step of `mainloop`, where it is on its way to the loop.
  poll-Nearer :
      (s : System) (p : PollPc)
      → s.poll ≡ p
      → 0 < poll_rank p
      → (p ≡ started → s.owner ≡ none)
      → Nearer s
  unfolding rank
  poll-Nearer s started e h o = (_, lock_config e (o refl), ground arith)
  poll-Nearer s configuring e h o = (_, set_option e, ground arith)
  poll-Nearer s notifying e h o = (_, notify e, ground arith)
  poll-Nearer s leaving e h o = (_, unlock_config e, ground arith)
  poll-Nearer s p e h o = absurd (omega arith)

  waiting-Nearer :
      (s : System) (p : PollPc) → Inv spurious s → s.main ≡ waiting → s.poll ≡ p → Nearer s
  waiting-Nearer s started inv m e =
      poll-Nearer s started e (omega arith) (λ _. ground (arith, inv.owned))
  waiting-Nearer s configuring inv m e = poll-Nearer s configuring e (omega arith) (λ q. cc)
  waiting-Nearer s notifying inv m e = poll-Nearer s notifying e (omega arith) (λ q. cc)
  waiting-Nearer s leaving inv m e = absurd (ground (arith, inv.heard))
  waiting-Nearer s polling inv m e = absurd (ground (arith, inv.heard))
  waiting-Nearer s testing inv m e = absurd (ground (arith, inv.heard))
  waiting-Nearer s absent inv m e = absurd (ground (arith, inv.together))
  waiting-Nearer s p inv m e = absurd (ground (arith, inv.running))

  woken-Nearer : (s : System) (p : PollPc) → Inv spurious s → s.main ≡ woken → s.poll ≡ p → Nearer s
  unfolding rank
  woken-Nearer s configuring inv m e = poll-Nearer s configuring e (omega arith) (λ q. cc)
  woken-Nearer s notifying inv m e = poll-Nearer s notifying e (omega arith) (λ q. cc)
  woken-Nearer s leaving inv m e = poll-Nearer s leaving e (omega arith) (λ q. cc)
  woken-Nearer s p inv m e = (_, resume m (ground (arith, inv.owned)), ground arith)

  nearer : (s : System) (m : MainPc) → Inv spurious s → s.main ≡ m → m ≢ returned → Nearer s
  unfolding rank
  nearer s entered inv e h = (_, lock_server e (ground arith), ground arith)
  nearer s locked inv e h = (_, spawn e, ground arith)
  nearer s spawned inv e h = (_, wait e, ground arith)
  nearer s waiting inv e h = waiting-Nearer s s.poll inv e refl
  nearer s woken inv e h = woken-Nearer s s.poll inv e refl
  nearer s resumed inv e h = (_, return e, ground arith)
  nearer s returned inv e h = absurd (h refl)

  first : {s t u : System} → Step spurious s t → Steps spurious t u → Steps spurious s u
  first st here = later here st
  first st (later r last) = later (first st r) last

  is_returned : (m : MainPc) → (m ≡ returned) ⊎ (m ≢ returned)
  is_returned returned = inl refl
  is_returned entered = inr (λ e. cc)
  is_returned locked = inr (λ e. cc)
  is_returned spawned = inr (λ e. cc)
  is_returned waiting = inr (λ e. cc)
  is_returned woken = inr (λ e. cc)
  is_returned resumed = inr (λ e. cc)

  return_within :
      (fuel : ℕ) (s : System)
      → rank s < fuel
      → Inv spurious s
      → (t : System) × Steps spurious s t × (t.main ≡ returned)
  return_within zero s h inv = absurd (omega arith)
  return_within (suc fuel) s h inv = elim (is_returned s.main) [
    | inl done ↦ (s, here, done)
    | inr more ↦
        let (t, st, closer) = nearer s s.main inv refl more in
        let (u, rest, done) = return_within fuel t (omega arith) (Step-Inv st inv) in
        (u, first st rest, done)
  ]

-- From every state that the two threads can come to, with or without wake-ups that nothing asked for,
-- some further steps let `run` return: a notification is never lost, and no lock is waited for without
-- end.
pub run_returns :
    {spurious : Bool} {s : System}
    → Steps spurious constructed s
    → (t : System) × Steps spurious s t × (t.main ≡ returned)
run_returns {spurious} {s} r = return_within spurious (suc (rank s)) s (omega arith) (Steps-Inv r)
