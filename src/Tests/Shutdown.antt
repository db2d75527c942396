-- ===== src/Tests/Shutdown.antt =====
-- Connections that are shut down, by one thread and by two.
use libfuji.Common.{ℕ, ◌≤◌, ◌≡◌, ◌≢◌, ◌⊎◌, refl, true, none, some}
use libfuji.Fuji.Shutdown.{Closing}
use libfuji.Fuji.Shutdown.Threads.{
  past_test, inside, closed_down, returned, Shared, move, test, lock, close, set_switch, Reaches,
  here, then, at_start,
}
use libfuji.Fuji.Shutdown.Once.{GoesOn, report_error-closes_once, report_error-never_stuck}
use libfuji.Tests.Fuji.{World}

abbrev sample_closing : Closing World
sample_closing = record {
  close_session = λ w. w;
  write = λ bytes w. w;
  ptpip_device_close = λ w. w;
  ptp_device_close = λ w. w;
}

-- Both threads pass the first test; thread 0 takes the mutex and closes the connection.
abbrev both_past : Shared
both_past = record at_start { pc = move 1 past_test (move 0 past_test at_start.pc) }

abbrev first_locked : Shared
first_locked = record both_past { pc = move 0 inside both_past.pc; holder = some 0 }

abbrev first_closed : Shared
first_closed = record first_locked { pc = move 0 closed_down first_locked.pc; closings = 1 }

abbrev first_returned : Shared
first_returned = record first_closed {
  pc = move 0 returned first_closed.pc;
  holder = none;
  kill_switch = true;
}

first_returned-Reaches : Reaches at_start first_returned
unfolding move
first_returned-Reaches =
    then
      (then (then (then (then here (test 0 refl refl)) (test 1 refl refl)) (lock 0 refl refl))
        (close 0 refl refl))
      (set_switch 0 refl)

report_error-closes_once_example :
    (first_returned.closings ≤ 1)
    × ((first_returned.pc 0 ≢ returned)
        ⊎ ((first_returned.kill_switch ≡ true) × (first_returned.closings ≡ 1)))
report_error-closes_once_example = report_error-closes_once first_returned 0 first_returned-Reaches

report_error-never_stuck_example :
    (first_returned.pc 1 ≡ returned)
    ⊎ (GoesOn first_returned 1
        ⊎ ((first_returned.pc 1 ≡ past_test)
            × ((u : ℕ) × (first_returned.holder ≡ some u) × GoesOn first_returned u)))
report_error-never_stuck_example = report_error-never_stuck first_returned 1 first_returned-Reaches
