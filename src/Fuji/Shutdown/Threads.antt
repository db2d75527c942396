-- ===== src/Fuji/Shutdown/Threads.antt =====
-- Threads that report an error at the same time (lib/fuji.c: `ptp_report_error`).
use libfuji.Common.{ℕ, ◌+◌, ◌≡◌, Bool, true, false, Option, none, some, ◌==◌, if◌then◌else◌}

-- Where a thread is: before the first test of the kill switch, behind it, with the mutex taken, behind the
-- calls that close the connection but before the switch is set, and at the end.
pub data Pc : Type 0 where
  entered : Pc
  past_test : Pc
  inside : Pc
  closed_down : Pc
  returned : Pc

-- `closings` counts how often the connection has been closed; `holder` has the mutex.
pub record Shared : Type 0 where
  pub kill_switch : Bool
  pub holder : Option ℕ
  pub closings : ℕ
  pub pc : ℕ → Pc

unfoldable pub move : ℕ → Pc → (ℕ → Pc) → ℕ → Pc
move t p pc u = if u == t then p else pc u

-- What thread `t` does next.
pub data Moves : Shared → Shared → Type 0 where
  return_early :
      {s : Shared} (t : ℕ)
      → s.pc t ≡ entered
      → s.kill_switch ≡ true
      → Moves s (record s { pc = move t returned s.pc })
  test :
      {s : Shared} (t : ℕ)
      → s.pc t ≡ entered
      → s.kill_switch ≡ false
      → Moves s (record s { pc = move t past_test s.pc })
  lock :
      {s : Shared} (t : ℕ)
      → s.pc t ≡ past_test
      → s.holder ≡ none
      → Moves s (record s { pc = move t inside s.pc; holder = some t })
  give_up :
      {s : Shared} (t : ℕ)
      → s.pc t ≡ inside
      → s.kill_switch ≡ true
      → Moves s (record s { pc = move t returned s.pc; holder = none })
  close :
      {s : Shared} (t : ℕ)
      → s.pc t ≡ inside
      → s.kill_switch ≡ false
      → Moves s (record s { pc = move t closed_down s.pc; closings = s.closings + 1 })
  set_switch :
      {s : Shared} (t : ℕ)
      → s.pc t ≡ closed_down
      → Moves s (record s { pc = move t returned s.pc; holder = none; kill_switch = true })

-- Any number of threads, in any order.
pub data Reaches : Shared → Shared → Type 0 where
  here : {s : Shared} → Reaches s s
  then : {s t u : Shared} → Reaches s t → Moves t u → Reaches s u

abbrev pub at_start : Shared
at_start = record { kill_switch = false; holder = none; closings = 0; pc = λ t. entered }
