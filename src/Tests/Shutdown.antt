-- ===== src/Tests/Shutdown.antt =====
-- One append that enters and leaves, and a drain behind it (logdb/src/pipeline/signal.rs).
use lv_logdb.Prelude.{◌≡◌, ◌≢◌, refl, some, get_elem?, arith}
use lv_logdb.Pipeline.Shutdown.{
  default, fetch_add, fetch_sub, draining, start_drain, outside, reserved, appending, drained,
  Guard, move, reserve, admit, leave, call_drain, see_zero, begin, Reach, start, later,
}
use lv_logdb.Pipeline.Shutdown.Quiet.{in_flight_of, total, drained-quiet}

abbrev one_left : Guard
one_left =
    let entered = move (begin 2) (fetch_add (begin 2).state) 0 reserved in
    let admitted = move entered entered.state 0 appending in
    move admitted (fetch_sub admitted.state) 0 outside

abbrev all_drained : Guard
all_drained = record one_left { state = start_drain one_left.state; drain = drained }

all_drained-Reach : Reach 2 all_drained
unfolding default fetch_add fetch_sub draining start_drain
all_drained-Reach =
    later
      (later (later (later (later start (reserve 0 refl)) (admit 0 refl refl)) (leave 0 refl))
        (call_drain refl))
      (see_zero refl refl)

drained-quiet_example :
    (all_drained.state.in_flight ≡ total in_flight_of all_drained.callers)
    × (get_elem? all_drained.callers 1 ≢ some appending)
drained-quiet_example = drained-quiet (omega arith) all_drained-Reach refl 1
