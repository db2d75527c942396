-- ===== src/Fuji/Ends.antt =====
-- Reasoning about the chains of calls in lib/fuji.c: what holds where a function returns.
use libfuji.Common.{refl, ◌≢◌, ◌≡◌, subst, Bool, true, false, if◌then◌else◌, Option, none, some}
use libfuji.Fuji.Session.{
  PtpRuntime, Rc, ok, check_code, runtime_err, canceled, other, Result, ◌or_return◌, and_unlock,
  ptp_mutex_unlock,
}

-- What holds of the result, where the function returns.
abbrev pub Ends : {W : Type 0} → (PtpRuntime W → Rc → Type 0) → Result W → Type 0
Ends P none = Unit
Ends P (some (r, rc)) = P r rc

module _ {W : Type 0} (P Q : PtpRuntime W → Rc → Type 0) where
  -- A chain of calls: what the first one establishes, the rest builds on where it returned 0.
  pub or_return-Ends :
      (o : Result W) (k : PtpRuntime W → Result W)
      → Ends P o
      → ((r : PtpRuntime W) (rc : Rc) → P r rc → Q r rc)
      → ((r : PtpRuntime W) → P r ok → Ends Q (k r))
      → Ends Q (o or_return k)
  or_return-Ends none k h f g = tt
  or_return-Ends (some (r, ok)) k h f g = g r h
  or_return-Ends (some (r, check_code)) k h f g = f r check_code h
  or_return-Ends (some (r, runtime_err)) k h f g = f r runtime_err h
  or_return-Ends (some (r, canceled)) k h f g = f r canceled h
  or_return-Ends (some (r, other e)) k h f g = f r (other e) h

  -- The same, with the result known to be an error where the chain stops.
  pub ok_or_return-Ends :
      (o : Result W) (k : PtpRuntime W → Result W)
      → Ends P o
      → ((r : PtpRuntime W) (rc : Rc) → P r rc → rc ≢ ok → Q r rc)
      → ((r : PtpRuntime W) → P r ok → Ends Q (k r))
      → Ends Q (o or_return k)
  ok_or_return-Ends none k h f g = tt
  ok_or_return-Ends (some (r, ok)) k h f g = g r h
  ok_or_return-Ends (some (r, check_code)) k h f g = f r check_code h (λ e. cc)
  ok_or_return-Ends (some (r, runtime_err)) k h f g = f r runtime_err h (λ e. cc)
  ok_or_return-Ends (some (r, canceled)) k h f g = f r canceled h (λ e. cc)
  ok_or_return-Ends (some (r, other x)) k h f g = f r (other x) h (λ e. cc)

  pub Ends-imp :
      (o : Result W) → Ends P o → ((r : PtpRuntime W) (rc : Rc) → P r rc → Q r rc) → Ends Q o
  Ends-imp none h f = tt
  Ends-imp (some (r, rc)) h f = f r rc h

  pub and_unlock-Ends :
      (o : Result W)
      → Ends P o
      → ((r : PtpRuntime W) (rc : Rc) → P r rc → Q (ptp_mutex_unlock r) rc)
      → Ends Q (and_unlock o)
  and_unlock-Ends none h f = tt
  and_unlock-Ends (some (r, rc)) h f = f r rc h

-- Reading it off for a result that is given.
pub Ends-at :
    {W : Type 0} (P : PtpRuntime W → Rc → Type 0) (o : Result W) (r : PtpRuntime W) (rc : Rc)
    → Ends P o
    → o ≡ some (r, rc)
    → P r rc
Ends-at P o r rc h e = subst (Ends P) e h

pub if-Ends :
    {W : Type 0} (P : PtpRuntime W → Rc → Type 0) (b : Bool) (x y : Result W)
    → (b ≡ true → Ends P x)
    → (b ≡ false → Ends P y)
    → Ends P (if b then x else y)
if-Ends P true x y h k = h refl
if-Ends P false x y h k = k refl

pub option-Ends :
    {W A : Type 0} (P : PtpRuntime W → Rc → Type 0) (o : Option A) (k : A → Result W)
    → ((a : A) → Ends P (k a))
    → Ends P (elim o as (λ x. Result W) [ none ↦ none | some a ↦ k a ])
option-Ends P none k f = tt
option-Ends P (some a) k f = f a
