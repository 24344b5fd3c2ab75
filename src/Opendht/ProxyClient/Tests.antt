-- ===== src/Opendht/ProxyClient/Tests.antt =====
-- Runs of dhtclient.cpp: one in which no value is listened to, and one whose notification is lost.
use smoll.Base.{◌≡◌, refl, true, false, ◌||◌}
use smoll.Opendht.ProxyClient.{
  for_put, for_get, for_listen, returned, blocked, idle, System, initial, call_listen, call_put,
  call_get, pass, enter, block, time_out, on_put_done, on_get_done, notify, Steps, here, later,
}
use smoll.Opendht.ProxyClient.Order.{returned_waited}

abbrev ended : System
ended = record {
  main = returned;
  client = idle;
  listen_made = true;
  put_made = true;
  get_made = true;
  done_listen = false;
  done_put = true;
  done_get = true;
  late_put = false;
  late_get = false;
  late_listen = true;
  dangling = false;
}

unheard : Steps initial ended
unheard =
    later
      (later
        (later
          (later
            (later
              (later
                (later
                  (later
                    (later
                      (later (later (later here (call_listen refl)) (call_put refl))
                        (on_put_done refl refl refl))
                      (notify refl))
                    (pass for_put refl refl))
                  (call_get refl))
                (on_get_done refl refl refl))
              (notify refl))
            (pass for_get refl refl))
          (enter for_listen refl refl))
        (block for_listen refl))
      (time_out for_listen refl)

returned_waited_example :
    (ended.listen_made ≡ true)
    × (ended.put_made ≡ true)
    × (ended.get_made ≡ true)
    × ((ended.done_put || ended.late_put) ≡ true)
    × ((ended.done_get || ended.late_get) ≡ true)
    × ((ended.done_listen || ended.late_listen) ≡ true)
returned_waited_example = returned_waited unheard refl

-- The put is confirmed and notified between the predicate and the block: `main` is blocked, its flag
-- is up, and nothing is left to notify it.
lost_notification :
    (s : System) × Steps initial s
    × (s.main ≡ blocked for_put)
    × (s.done_put ≡ true)
    × (s.client ≡ idle)
lost_notification = (
  _,
  later
      (later
        (later
          (later (later (later here (call_listen refl)) (call_put refl)) (enter for_put refl refl))
          (on_put_done refl refl refl))
        (notify refl))
      (block for_put refl),
  refl,
  refl,
  refl,
)
