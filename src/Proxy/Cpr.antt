-- ===== src/Proxy/Cpr.antt =====
-- cpp/opendht/dhtproxyserver/proxy_cpr.cpp: the two threads of `DhtProxyServer`, its two mutexes and
-- its condition variable, from the end of the constructor on, and the handler of events. The model ends
-- where `main` leaves its block behind `run`: the states with `returned` are those of the time until
-- then. The destructor, which runs while the detached thread still uses the object and its locked mutex,
-- and the end of the process are not modelled. The text does not compile as it stands (a brace of
-- `hello` and a semicolon of the header are missing); the model is of what it says. A condition variable
-- may wake up with no notification where `spurious` is true.
pub mod Invariant
pub mod Return
mod Tests
use smoll.Base.{
  ℕ, ◌≡◌, ◌≢◌, Bool, true, false, Option, none, some, Bytes, codes, same_text, if◌then◌else◌,
}

pub data Thread : Type 0 where
  main_thread poll_thread : Thread

-- Where `run` stands.
pub data MainPc : Type 0 where
  -- Before `server_lock`, before the thread, before `wait`.
  entered locked spawned : MainPc
  -- Inside `wait`: not woken, woken without the mutex, with it.
  waiting woken resumed : MainPc
  returned : MainPc

-- Where `mainloop` stands.
pub data PollPc : Type 0 where
  absent : PollPc
  -- Before the lock, `mg_set_option`, `notify_one`, the end of the block.
  started configuring notifying leaving : PollPc
  -- Before `mg_poll_server`, and before `try_lock`.
  polling testing : PollPc
  -- Before `unlock`, the lock, `mg_destroy_server`, `notify_one`, the end.
  unlocking stopping destroying telling closing : PollPc
  ended : PollPc

pub record System : Type 0 where
  pub main : MainPc
  pub poll : PollPc
  -- The owner of `server_mutex`.
  pub owner : Option Thread
  -- `shutdown_mutex`.
  pub shutdown_locked : Bool
  pub option_set : Bool
  pub destroyed : Bool

-- The constructor has locked `shutdown_mutex`.
abbrev pub constructed : System
constructed = record {
  main = entered;
  poll = absent;
  owner = none;
  shutdown_locked = true;
  option_set = false;
  destroyed = false;
}

-- `notify_one` wakes the main thread, if it waits.
abbrev pub notify_one : MainPc → MainPc
notify_one waiting = woken
notify_one m = m

pub data Step (spurious : Bool) (s : System) : System → Type 0 where
  lock_server :
      s.main ≡ entered
      → s.owner ≡ none
      → Step spurious s (record s { main = locked; owner = some main_thread })
  spawn : s.main ≡ locked → Step spurious s (record s { main = spawned; poll = started })
  wait : s.main ≡ spawned → Step spurious s (record s { main = waiting; owner = none })
  wake : s.main ≡ waiting → spurious ≡ true → Step spurious s (record s { main = woken })
  resume :
      s.main ≡ woken
      → s.owner ≡ none
      → Step spurious s (record s { main = resumed; owner = some main_thread })
  return : s.main ≡ resumed → Step spurious s (record s { main = returned; owner = none })
  lock_config :
      s.poll ≡ started
      → s.owner ≡ none
      → Step spurious s (record s { poll = configuring; owner = some poll_thread })
  set_option :
      s.poll ≡ configuring → Step spurious s (record s { poll = notifying; option_set = true })
  notify :
      s.poll ≡ notifying → Step spurious s (record s { poll = leaving; main = notify_one s.main })
  unlock_config : s.poll ≡ leaving → Step spurious s (record s { poll = polling; owner = none })
  poll_server : s.poll ≡ polling → Step spurious s (record s { poll = testing })
  try_lock_fails :
      s.poll ≡ testing → s.shutdown_locked ≡ true → Step spurious s (record s { poll = polling })
  try_lock_wins :
      s.poll ≡ testing
      → s.shutdown_locked ≡ false
      → Step spurious s (record s { poll = unlocking; shutdown_locked = true })
  unlock_shutdown :
      s.poll ≡ unlocking → Step spurious s (record s { poll = stopping; shutdown_locked = false })
  lock_destroy :
      s.poll ≡ stopping
      → s.owner ≡ none
      → Step spurious s (record s { poll = destroying; owner = some poll_thread })
  destroy_server :
      s.poll ≡ destroying → Step spurious s (record s { poll = telling; destroyed = true })
  notify_end :
      s.poll ≡ telling → Step spurious s (record s { poll = closing; main = notify_one s.main })
  end : s.poll ≡ closing → Step spurious s (record s { poll = ended; owner = none })

pub data Steps (spurious : Bool) (s : System) : System → Type 0 where
  here : Steps spurious s s
  later : {t u : System} → Steps spurious s t → Step spurious t u → Steps spurious s u

-- The event of mongoose, as far as the server tells events apart.
pub data MgEvent : Type 0 where
  mg_request other_event : MgEvent

-- What becomes of a connection: an answer with MG_TRUE, whatever `options` does, or MG_FALSE.
pub data Handled : Type 0 where
  answered : (status : ℕ) (content_type data_sent : Bytes) → Handled
  options : Handled
  mg_false : Handled

abbrev pub hello : Handled
hello = answered 200 (codes "text/html") (codes "Hello world!")

unfoldable pub ev_handler : MgEvent → Bytes → Handled
ev_handler mg_request uri =
    if same_text uri (codes "/")
    then options
    else if same_text uri (codes "/hello")
    then hello
    else mg_false
ev_handler other_event uri = mg_false
