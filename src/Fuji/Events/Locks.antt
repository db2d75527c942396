-- ===== src/Fuji/Events/Locks.antt =====
-- The mutex around `fuji_get_events` (lib/fuji.c).
use libfuji.Common.{ℕ, some, ◌≡◌, refl, ◌∙◌, arith}
use libfuji.Fuji.Session.{Rc, PtpRuntime, Port}
use libfuji.Fuji.Ends.{Ends, Ends-at}
use libfuji.Fuji.Events.{fuji_get_events}
use libfuji.Fuji.Events.Keeps.{IsEventFrame, get_events-Keeps}
use libfuji.Fuji.Steps.Keeps.{IsFrame}

-- The mutex is held as often as before.
abbrev pub HasLocks : {W : Type 0} → ℕ → PtpRuntime W → Rc → Type 0
HasLocks n r rc = r.locks ≡ n

abbrev pub SameLocks : {W : Type 0} → PtpRuntime W → PtpRuntime W → Type 0
SameLocks r s = s.locks ≡ r.locks

pub SameLocks-IsFrame : {W : Type 0} → IsFrame {W = W} SameLocks
SameLocks-IsFrame = record {
  reflexive = λ r. refl;
  transitive = λ r s t h k. k ∙ h;
  outside = λ r w. refl;
  mutex = λ r s h. omega (arith, h);
}

pub SameLocks-IsEventFrame : {W : Type 0} → IsEventFrame {W = W} SameLocks
SameLocks-IsEventFrame = record {
  frame = SameLocks-IsFrame;
  tells_state = λ r v. refl;
  tells_mode = λ r v. refl;
  tells_count = λ r v. refl;
}

module _ {W : Type 0} (port : Port W) (r : PtpRuntime W) where
  pub get_events-HasLocks : Ends (HasLocks r.locks) (fuji_get_events port r)
  get_events-HasLocks = (get_events-Keeps SameLocks-IsEventFrame port).at r

  -- On every path on which `fuji_get_events` returns, errors included, the mutex is held as often as
  -- before.
  pub get_events-locks :
      (r' : PtpRuntime W) (rc : Rc) → fuji_get_events port r ≡ some (r', rc) → r'.locks ≡ r.locks
  get_events-locks r' rc e =
      Ends-at (HasLocks r.locks) (fuji_get_events port r) r' rc get_events-HasLocks e
