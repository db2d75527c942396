-- ===== src/Fuji/Steps/Keeps.antt =====
-- What a chain of calls keeps, one rule for each way to build it.
use libfuji.Common.{Option, Bool, true, false, if◌then◌else◌, none, some}
use libfuji.Fuji.Session.{
  Rc, ok, PtpRuntime, PtpUserPriv, Result, set_world, ptp_mutex_lock, ptp_mutex_unlock,
}
use libfuji.Fuji.Ends.{option-Ends, Ends, Ends-imp, or_return-Ends, and_unlock-Ends}
use libfuji.Fuji.Steps.{
  out_of_fuel, calling, examining, affect, Step, ◌and_then◌, finished, run, assign, reading, when,
  on_result, locked, assign_fuji,
}

-- A relation between the runtime before and after, which a call of the outside and the mutex respect.
pub record IsFrame {W : Type 0} (R : PtpRuntime W → PtpRuntime W → Type 0) : Type 0 where
  pub reflexive : (r : PtpRuntime W) → R r r
  pub transitive : (r s t : PtpRuntime W) → R r s → R s t → R r t
  pub outside : (r : PtpRuntime W) (w : W) → R r (set_world r w)
  pub mutex : (r s : PtpRuntime W) → R (ptp_mutex_lock r) s → R r (ptp_mutex_unlock s)

-- The function keeps the relation, where it returns.
pub record Keeps {W : Type 0} (R : PtpRuntime W → PtpRuntime W → Type 0) (f : Step W) : Type 0 where
  pub at : (r : PtpRuntime W) → Ends (λ s rc. R r s) (f r)

module _ {W : Type 0} {R : PtpRuntime W → PtpRuntime W → Type 0} (c : IsFrame R) where
  pub Keeps-and_then : (f g : Step W) → Keeps R f → Keeps R g → Keeps R (f and_then g)
  unfolding ◌and_then◌
  Keeps-and_then f g hf hg = record {
    at = λ r.
        or_return-Ends (λ s rc. R r s) (λ s rc. R r s) (f r) g (hf.at r) (λ s rc h. h)
          (λ s h.
            Ends-imp (λ t rc. R s t) (λ t rc. R r t) (g s) (hg.at s)
              (λ t rc k. c.transitive r s t h k));
  }

  pub Keeps-finished : (rc : Rc) → Keeps R (finished rc)
  unfolding finished
  Keeps-finished rc = record { at = λ r. c.reflexive r }

  pub Keeps-out_of_fuel : Keeps R out_of_fuel
  unfolding out_of_fuel
  Keeps-out_of_fuel = record { at = λ r. tt }

  pub Keeps-run : (op : W → W × Rc) → Keeps R (run op)
  unfolding run
  Keeps-run op = record { at = λ r. c.outside r (op r.world).0 }

  pub Keeps-assign :
      (f : PtpRuntime W → PtpRuntime W) → ((r : PtpRuntime W) → R r (f r)) → Keeps R (assign f)
  unfolding assign
  Keeps-assign f h = record { at = h }

  pub Keeps-assign_fuji :
      (f : PtpUserPriv → PtpUserPriv)
      → ((r : PtpRuntime W) → R r (record r { fuji = f r.fuji }))
      → Keeps R (assign_fuji f)
  unfolding assign_fuji
  Keeps-assign_fuji f h = record { at = h }

  pub Keeps-reading :
      (k : PtpRuntime W → Step W) → ((r : PtpRuntime W) → Keeps R (k r)) → Keeps R (reading k)
  unfolding reading
  Keeps-reading k h = record { at = λ r. (h r).at r }

  pub Keeps-if : (b : Bool) (f g : Step W) → Keeps R f → Keeps R g → Keeps R (if b then f else g)
  Keeps-if true f g hf hg = hf
  Keeps-if false f g hf hg = hg

  pub Keeps-when : (b : Bool) (f : Step W) → Keeps R f → Keeps R (when b f)
  unfolding when
  Keeps-when b f h = Keeps-if b f (finished ok) h (Keeps-finished ok)

  resumed :
      (r : PtpRuntime W) (o : Result W) (k : Rc → Step W)
      → Ends (λ s rc. R r s) o
      → ((rc : Rc) → Keeps R (k rc))
      → Ends (λ s rc. R r s) (elim o as (λ x. Result W) [ none ↦ none | some p ↦ k p.1 p.0 ])
  resumed r none k h hk = tt
  resumed r (some (s, rc)) k h hk =
      Ends-imp (λ t rc. R s t) (λ t rc. R r t) (k rc s) ((hk rc).at s)
        (λ t e g. c.transitive r s t h g)

  pub Keeps-on_result :
      (f : Step W) (k : Rc → Step W)
      → Keeps R f
      → ((rc : Rc) → Keeps R (k rc))
      → Keeps R (on_result f k)
  unfolding on_result
  Keeps-on_result f k hf hk = record { at = λ r. resumed r (f r) k (hf.at r) hk }

  pub Keeps-calling :
      {A : Type 0} (op : W → W × A) (k : A → Step W)
      → ((a : A) → Keeps R (k a))
      → Keeps R (calling op k)
  unfolding calling
  Keeps-calling op k h = record {
    at = λ r.
        let s : PtpRuntime W = set_world r (op r.world).0 in
        Ends-imp (λ t rc. R s t) (λ t rc. R r t) (k (op r.world).1 s) ((h (op r.world).1).at s)
          (λ t rc e. c.transitive r s t (c.outside r (op r.world).0) e);
  }

  pub Keeps-examining :
      {A : Type 0} (look : W → Option A) (k : A → Step W)
      → ((a : A) → Keeps R (k a))
      → Keeps R (examining look k)
  unfolding examining
  Keeps-examining look k h = record {
    at = λ r. option-Ends (λ s rc. R r s) (look r.world) (λ a. k a r) (λ a. (h a).at r);
  }

  pub Keeps-affect : (f : W → W) → Keeps R (affect f)
  unfolding affect
  Keeps-affect f = record { at = λ r. c.outside r (f r.world) }

  pub Keeps-locked : (f : Step W) → Keeps R f → Keeps R (locked f)
  unfolding locked
  Keeps-locked f h = record {
    at = λ r.
        and_unlock-Ends (λ s rc. R (ptp_mutex_lock r) s) (λ s rc. R r s) (f (ptp_mutex_lock r))
          (h.at (ptp_mutex_lock r)) (λ s rc e. c.mutex r s e);
  }

pub ruleset keeps_rules = (
  Keeps-and_then, Keeps-finished, Keeps-run, Keeps-reading, Keeps-if, Keeps-when, Keeps-on_result,
  Keeps-locked, Keeps-calling, Keeps-examining, Keeps-affect, Keeps-out_of_fuel,
)
