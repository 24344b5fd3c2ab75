-- ===== src/Opendht/ProxyClient/Order.antt =====
-- The order of the calls of dhtclient.cpp, and its end.
use smoll.Base.{ℕ, ◌≤◌, ◌≡◌, true, ◌||◌, arith}
use smoll.Opendht.ProxyClient.{
  for_put, for_get, for_listen, MainPc, listening, putting, getting, returned, checking, entering,
  blocked, System, initial, Step, call_listen, call_put, call_get, pass, enter, block, wake,
  time_out, on_listen, on_put_done, on_get_done, notify, Steps, here, later,
}

-- How far `main` has come.
abbrev stage : MainPc → ℕ
stage listening = 0
stage putting = 1
stage (checking for_put) = 2
stage (entering for_put) = 2
stage (blocked for_put) = 2
stage getting = 3
stage (checking for_get) = 4
stage (entering for_get) = 4
stage (blocked for_get) = 4
stage (checking for_listen) = 5
stage (entering for_listen) = 5
stage (blocked for_listen) = 5
stage returned = 6

pub record Inv (s : System) : Type 0 where
  pub listen_first : 1 ≤ stage s.main → s.listen_made ≡ true
  pub put_waited : 3 ≤ stage s.main → (s.done_put || s.late_put) ≡ true
  pub get_waited : 5 ≤ stage s.main → (s.done_get || s.late_get) ≡ true
  pub listen_waited : 6 ≤ stage s.main → (s.done_listen || s.late_listen) ≡ true
  pub put_first : 2 ≤ stage s.main → s.put_made ≡ true
  pub get_first : 4 ≤ stage s.main → s.get_made ≡ true
  pub get_later : s.get_made ≡ true → 4 ≤ stage s.main
  pub put_later : s.put_made ≡ true → 2 ≤ stage s.main

Step-Inv : {s t : System} → Step s t → Inv s → Inv t
Step-Inv (call_listen m) i = ground arith
Step-Inv (call_put m) i = ground arith
Step-Inv (call_get m) i = ground arith
Step-Inv (pass for_put m f) i = ground arith
Step-Inv (pass for_get m f) i = ground arith
Step-Inv (pass for_listen m f) i = ground arith
Step-Inv (enter w m f) i = ground arith
Step-Inv (block w m) i = ground arith
Step-Inv wake i = ground arith
Step-Inv (time_out w m) i = ground arith
Step-Inv (on_listen c m) i = ground arith
Step-Inv (on_put_done c m d) i = ground arith
Step-Inv (on_get_done c m d) i = ground arith
Step-Inv (notify c) i = ground arith

initial-Inv : Inv initial
initial-Inv = record {
  listen_first = λ h. absurd (omega arith);
  put_waited = λ h. absurd (omega arith);
  get_waited = λ h. absurd (omega arith);
  listen_waited = λ h. absurd (omega arith);
  put_first = λ h. absurd (omega arith);
  get_first = λ h. absurd (omega arith);
  get_later = λ h. cc;
  put_later = λ h. cc;
}

Steps-Inv : {s : System} → Steps initial s → Inv s
Steps-Inv here = initial-Inv
Steps-Inv (later r st) = Step-Inv st (Steps-Inv r)

-- In every order of the steps of the two threads, with wake-ups that nothing asked for and
-- notifications that come too soon: the get is called only when the put was confirmed or its wait ran
-- out of time.
pub get_waits_for_put :
    {s : System} → Steps initial s → s.get_made ≡ true → (s.done_put || s.late_put) ≡ true
get_waits_for_put r made = let i = Steps-Inv r in i.put_waited (omega (arith, i.get_later made))

-- When `main` ends, in any such order, it has called listen, put and get, and for each of the three
-- either the callback has come or the wait for it has run out of time.
pub returned_waited :
    {s : System}
    → Steps initial s
    → s.main ≡ returned
    → (s.listen_made ≡ true)
      × (s.put_made ≡ true)
      × (s.get_made ≡ true)
      × ((s.done_put || s.late_put) ≡ true)
      × ((s.done_get || s.late_get) ≡ true)
      × ((s.done_listen || s.late_listen) ≡ true)
returned_waited {s} r e =
    let i = Steps-Inv r in
    let last : 6 ≤ stage s.main = ground arith in
    (
      i.listen_first (omega arith),
      i.put_first (omega arith),
      i.get_first (omega arith),
      i.put_waited (omega arith),
      i.get_waited (omega arith),
      i.listen_waited last,
    )
