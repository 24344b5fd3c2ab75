-- ===== src/Proxy/Cpr/Tests.antt =====
-- Orders of the two threads: the theorems at concrete states.
use smoll.Base.{◌≡◌, ◌≢◌, refl, true, false, Bool}
use smoll.Proxy.Cpr.{
  returned, waiting, leaving, System, constructed, lock_server, spawn, wait, wake, resume, return,
  lock_config, set_option, notify, unlock_config, PollPc, Steps, here, later,
}
use smoll.Proxy.Cpr.Invariant.{mainloop_endless}
use smoll.Proxy.Cpr.Return.{run_returns}

abbrev asleep : (spurious : Bool) → (s : System) × Steps spurious constructed s × (s.main ≡ waiting)
asleep spurious =
    (_, later (later (later here (lock_server refl refl)) (spawn refl)) (wait refl), refl)

-- The notification comes while the main thread waits.
abbrev notified : (s : System) × Steps false constructed s × (s.poll ≡ leaving)
notified = (
  _,
  later (later (later (asleep false).1 (lock_config refl refl)) (set_option refl)) (notify refl),
  refl,
)

mainloop_endless_example :
    (notified.0.shutdown_locked ≡ true)
    × (notified.0.destroyed ≡ false)
    × (notified.0.poll ≢ PollPc.ended)
mainloop_endless_example = mainloop_endless notified.1

run_returns_example : (t : System) × Steps false notified.0 t × (t.main ≡ returned)
run_returns_example = run_returns notified.1

abbrev finished : (s : System) × Steps false constructed s × (s.main ≡ returned)
finished = (
  _,
  later (later (later notified.1 (unlock_config refl)) (resume refl refl)) (return refl),
  refl,
)

-- A wake-up that nothing asked for lets `run` return with no port set.
early_return :
    (s : System) × Steps true constructed s × (s.main ≡ returned) × (s.option_set ≡ false)
early_return = (
  _,
  later (later (later (asleep true).1 (wake refl refl)) (resume refl refl)) (return refl),
  refl,
  refl,
)
