-- ===== src/Fuji/Steps/Ensures.antt =====
-- What holds where a chain of calls ends without an error.
use libfuji.Common.{refl, none, some, ◌≡◌}
use libfuji.Fuji.Session.{ok, PtpRuntime}
use libfuji.Fuji.Ends.{Ends, Ends-imp, ok_or_return-Ends}
use libfuji.Fuji.Steps.{Step, ◌and_then◌}
use libfuji.Fuji.Steps.Keeps.{Keeps}

-- Where the function returns 0, `P` holds.
pub record Ensures {W : Type 0} (P : PtpRuntime W → Type 0) (f : Step W) : Type 0 where
  pub at : (r : PtpRuntime W) → Ends (λ s rc. rc ≡ ok → P s) (f r)

module _ {W : Type 0} (P : PtpRuntime W → Type 0) where
  -- The last call decides.
  pub Ensures-last : (f g : Step W) → Ensures P g → Ensures P (f and_then g)
  unfolding ◌and_then◌
  Ensures-last f g h = record {
    at = λ r.
        ok_or_return-Ends (λ s rc. Unit) (λ s rc. rc ≡ ok → P s) (f r) g (any_end r)
          (λ s rc u n e. absurd (n e)) (λ s u. h.at s);
  }
    where
      any_end : (r : PtpRuntime W) → Ends (λ s rc. Unit) (f r)
      any_end r = elim (f r) as (λ o. Ends (λ s rc. Unit) o) [ none ↦ tt | some p ↦ tt ]

  -- A first call decides, if the rest leaves it alone.
  pub Ensures-first :
      (R : PtpRuntime W → PtpRuntime W → Type 0) (f g : Step W)
      → ((r s : PtpRuntime W) → R r s → P r → P s)
      → Ensures P f
      → Keeps R g
      → Ensures P (f and_then g)
  unfolding ◌and_then◌
  Ensures-first R f g stable h k = record {
    at = λ r.
        ok_or_return-Ends (λ s rc. rc ≡ ok → P s) (λ s rc. rc ≡ ok → P s) (f r) g (h.at r)
          (λ s rc u n e. absurd (n e))
          (λ s u.
            Ends-imp (λ t rc. R s t) (λ t rc. rc ≡ ok → P t) (g s) (k.at s)
              (λ t rc e d. stable s t e (u refl)));
  }
