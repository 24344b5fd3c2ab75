-- ===== src/Proxy/Cpr/Invariant.antt =====
-- What holds of the two threads in every order of their steps.
use smoll.Base.{◌≡◌, ◌≢◌, Bool, true, false, not, ◌&&◌, Option, none, some, arith}
use smoll.Proxy.Cpr.{
  Thread, main_thread, poll_thread, MainPc, entered, locked, spawned, woken, resumed, returned,
  PollPc, absent, started, configuring, notifying, leaving, polling, testing, System, constructed,
  Step, lock_server, spawn, wait, wake, resume, return, lock_config, set_option, notify,
  unlock_config, poll_server, try_lock_fails, try_lock_wins, unlock_shutdown, lock_destroy,
  destroy_server, notify_end, end, Steps, here, later,
}

abbrev main_holds : MainPc → Bool
main_holds locked = true
main_holds spawned = true
main_holds resumed = true
main_holds m = false

abbrev poll_holds : PollPc → Bool
poll_holds configuring = true
poll_holds notifying = true
poll_holds leaving = true
poll_holds p = false

abbrev owner_of : Bool → Bool → Option Thread
owner_of true p = some main_thread
owner_of false true = some poll_thread
owner_of false false = none

-- Before the loop of `mainloop` has ended.
abbrev is_running : PollPc → Bool
is_running absent = true
is_running started = true
is_running configuring = true
is_running notifying = true
is_running leaving = true
is_running polling = true
is_running testing = true
is_running p = false

abbrev has_spawned : MainPc → Bool
has_spawned entered = false
has_spawned locked = false
has_spawned m = true

abbrev is_present : PollPc → Bool
is_present absent = false
is_present p = true

abbrev has_notified : PollPc → Bool
has_notified leaving = true
has_notified polling = true
has_notified testing = true
has_notified p = false

abbrev has_woken : MainPc → Bool
has_woken woken = true
has_woken resumed = true
has_woken returned = true
has_woken m = false

abbrev has_set : PollPc → Bool
has_set notifying = true
has_set p = has_notified p

abbrev pub implies : Bool → Bool → Bool
implies true b = b
implies false b = true

pub record Inv (spurious : Bool) (s : System) : Type 0 where
  pub exclusive : (main_holds s.main && poll_holds s.poll) ≡ false
  pub owned : s.owner ≡ owner_of (main_holds s.main) (poll_holds s.poll)
  pub shut : s.shutdown_locked ≡ true
  pub kept : s.destroyed ≡ false
  pub running : is_running s.poll ≡ true
  pub together : is_present s.poll ≡ has_spawned s.main
  pub heard : implies (has_notified s.poll) (has_woken s.main) ≡ true
  pub configured : s.option_set ≡ has_set s.poll
  pub orderly : implies (not spurious && has_woken s.main) s.option_set ≡ true

constructed-Inv : (spurious : Bool) → Inv spurious constructed
constructed-Inv true = ground arith
constructed-Inv false = ground arith

pub Step-Inv :
    {spurious : Bool} {s t : System} → Step spurious s t → Inv spurious s → Inv spurious t
Step-Inv (lock_server m o) h = ground arith
Step-Inv (spawn m) h = ground arith
Step-Inv (wait m) h = ground arith
Step-Inv (wake m sp) h = ground arith
Step-Inv (resume m o) h = ground arith
Step-Inv (return m) h = ground arith
Step-Inv (lock_config p o) h = ground arith
Step-Inv (set_option p) h = ground arith
Step-Inv (notify p) h = ground arith
Step-Inv (unlock_config p) h = ground arith
Step-Inv (poll_server p) h = ground arith
Step-Inv (try_lock_fails p l) h = ground arith
Step-Inv (try_lock_wins p l) h = ground arith
Step-Inv (unlock_shutdown p) h = ground arith
Step-Inv (lock_destroy p o) h = ground arith
Step-Inv (destroy_server p) h = ground arith
Step-Inv (notify_end p) h = ground arith
Step-Inv (end p) h = ground arith

pub Steps-Inv : {spurious : Bool} {s : System} → Steps spurious constructed s → Inv spurious s
Steps-Inv {spurious} here = constructed-Inv spurious
Steps-Inv (later r st) = Step-Inv st (Steps-Inv r)

-- In every order of the threads' steps while the server object lives, with wake-ups that nothing asked
-- for or without them: nobody ever opens `shutdown_mutex`, so the loop of `mainloop` does not end, and
-- mongoose's server is never destroyed.
pub mainloop_endless :
    {spurious : Bool} {s : System}
    → Steps spurious constructed s
    → (s.shutdown_locked ≡ true) × (s.destroyed ≡ false) × (s.poll ≢ PollPc.ended)
mainloop_endless r =
    let inv = Steps-Inv r in (inv.shut, inv.kept, (λ e. ground (arith, inv.running)))

-- Where a condition variable wakes up only when it is notified, `run` returns only after the port has
-- been set.
pub run_configured :
    {s : System} → Steps false constructed s → s.main ≡ returned → s.option_set ≡ true
run_configured r e = let inv = Steps-Inv r in ground (arith, inv.orderly)
