-- ===== src/Opendht/ProxyClient.antt =====
-- cpp/opendht/dhtclient.cpp: `main` with its three waits, and the callbacks, which the client calls on a
-- thread of its own. The callbacks set their flag and notify without the mutex that the waits hold. A
-- condition variable may wake up with no notification.
pub mod Order
mod Tests
use smoll.Base.{ℕ, ◌≡◌, Bool, true, false, ◌||◌}

-- The waits, which are named by the flag that they wait for.
pub data Wait : Type 0 where
  for_put for_get for_listen : Wait

-- Where `main` stands: before a call of the client, inside a wait, or at the end.
pub data MainPc : Type 0 where
  listening putting getting returned : MainPc
  -- Before the predicate, between a false one and the block, and blocked.
  checking entering blocked : Wait → MainPc

-- Where the thread of the client stands: between callbacks, or before a `notify_one`.
pub data ClientPc : Type 0 where
  idle notifying : ClientPc

pub record System : Type 0 where
  pub main : MainPc
  pub client : ClientPc
  -- The calls that were made.
  pub listen_made : Bool
  pub put_made : Bool
  pub get_made : Bool
  -- `doneListen`, `donePut` and `doneGet`.
  pub done_listen : Bool
  pub done_put : Bool
  pub done_get : Bool
  -- The waits that ended by their time.
  pub late_put : Bool
  pub late_get : Bool
  pub late_listen : Bool
  -- A callback has written to a flag after the end of `main`, which has destroyed it.
  pub dangling : Bool

abbrev pub initial : System
initial = record {
  main = listening;
  client = idle;
  listen_made = false;
  put_made = false;
  get_made = false;
  done_listen = false;
  done_put = false;
  done_get = false;
  late_put = false;
  late_get = false;
  late_listen = false;
  dangling = false;
}

abbrev pub flag : Wait → System → Bool
flag for_put s = s.done_put
flag for_get s = s.done_get
flag for_listen s = s.done_listen

-- What stands behind a wait.
abbrev pub next : Wait → MainPc
next for_put = getting
next for_get = checking for_listen
next for_listen = returned

abbrev pub late : Wait → System → System
late for_put s = record s { late_put = true }
late for_get s = record s { late_get = true }
late for_listen s = record s { late_listen = true }

-- A wake-up lets a wait look at its predicate again.
abbrev pub woken : MainPc → MainPc
woken (blocked w) = checking w
woken m = m

abbrev pub is_over : MainPc → Bool
is_over returned = true
is_over m = false

pub data Step (s : System) : System → Type 0 where
  call_listen : s.main ≡ listening → Step s (record s { main = putting; listen_made = true })
  call_put : s.main ≡ putting → Step s (record s { main = checking for_put; put_made = true })
  call_get : s.main ≡ getting → Step s (record s { main = checking for_get; get_made = true })
  pass : (w : Wait) → s.main ≡ checking w → flag w s ≡ true → Step s (record s { main = next w })
  enter :
      (w : Wait) → s.main ≡ checking w → flag w s ≡ false → Step s (record s { main = entering w })
  block : (w : Wait) → s.main ≡ entering w → Step s (record s { main = blocked w })
  wake : Step s (record s { main = woken s.main })
  time_out : (w : Wait) → s.main ≡ blocked w → Step s (late w (record s { main = next w }))
  on_listen :
      s.client ≡ idle
      → s.listen_made ≡ true
      → Step s (record s {
        client = notifying;
        done_listen = true;
        dangling = s.dangling || is_over s.main;
      })
  on_put_done :
      s.client ≡ idle
      → s.put_made ≡ true
      → s.done_put ≡ false
      → Step s (record s {
        client = notifying;
        done_put = true;
        dangling = s.dangling || is_over s.main;
      })
  on_get_done :
      s.client ≡ idle
      → s.get_made ≡ true
      → s.done_get ≡ false
      → Step s (record s {
        client = notifying;
        done_get = true;
        dangling = s.dangling || is_over s.main;
      })
  notify : s.client ≡ notifying → Step s (record s { client = idle; main = woken s.main })

pub data Steps (s : System) : System → Type 0 where
  here : Steps s s
  later : {t u : System} → Steps s t → Step t u → Steps s u
