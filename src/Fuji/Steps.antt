-- ===== src/Fuji/Steps.antt =====
-- The functions of lib/fuji.c that are chains of calls, each of which may end the function with its error:
-- how they are put together.
pub mod Ensures
pub mod Keeps
use libfuji.Common.{ℕ, Bool, true, false, Option, none, some, if◌then◌else◌}
use libfuji.Fuji.Session.{
  Rc, ok, PtpRuntime, PtpUserPriv, Port, Result, ◌or_return◌, call, set_world, ptp_mutex_lock,
  and_unlock,
}

-- What is done to the runtime, with a result.
abbrev pub Step : Type 0 → Type 0
Step W = PtpRuntime W → Result W

module _ {W : Type 0} where
  infixr 5 ◌and_then◌
  -- `rc = …; if (rc) return rc; …`
  unfoldable pub ◌and_then◌ : Step W → Step W → Step W
  (f and_then g) r = f r or_return g

  unfoldable pub finished : Rc → Step W
  finished rc r = some (r, rc)

  unfoldable pub out_of_fuel : Step W
  out_of_fuel r = none

  -- A call of the outside.
  unfoldable pub run : (W → W × Rc) → Step W
  run op r = call r (op r.world)

  -- An assignment.
  unfoldable pub assign : (PtpRuntime W → PtpRuntime W) → Step W
  assign f r = some (f r, ok)

  -- What goes on with the state as it is here.
  unfoldable pub reading : (PtpRuntime W → Step W) → Step W
  reading k r = k r r

  unfoldable pub when : Bool → Step W → Step W
  when b f = if b then f else finished ok

  -- What goes on with any result of the call.
  unfoldable pub on_result : Step W → (Rc → Step W) → Step W
  on_result f k r = elim (f r) [ none ↦ none | some p ↦ k p.1 p.0 ]

  -- Between `ptp_mutex_lock` and `ptp_mutex_unlock`.
  unfoldable pub locked : Step W → Step W
  locked f r = and_unlock (f (ptp_mutex_lock r))

  -- A call of the outside with a value of its own.
  unfoldable pub calling : {A : Type 0} → (W → W × A) → (A → Step W) → Step W
  calling op k r = k (op r.world).1 (set_world r (op r.world).0)

  -- A look at the outside that may be undefined.
  unfoldable pub examining : {A : Type 0} → (W → Option A) → (A → Step W) → Step W
  examining look k r = elim (look r.world) [ none ↦ none | some a ↦ k a r ]

  unfoldable pub affect : (W → W) → Step W
  affect f r = some (set_world r (f r.world), ok)

  unfoldable pub assign_fuji : (PtpUserPriv → PtpUserPriv) → Step W
  assign_fuji f r = some (record r { fuji = f r.fuji }, ok)

module _ {W : Type 0} (port : Port W) where
  abbrev pub read_prop : ℕ → Step W
  read_prop code = run (port.get_prop_value code)

  abbrev pub set_prop16 : ℕ → ℕ → Step W
  set_prop16 code value = run (port.set_prop_value16 code value)

  abbrev pub set_prop : ℕ → ℕ → Step W
  set_prop code value = run (port.set_prop_value code value)

  -- `ptp_parse_prop_value`, as often as the rest asks for it.
  abbrev pub with_value : (ℕ → Step W) → Step W
  with_value k = reading (λ r. k (port.parse_prop_value r.world))
