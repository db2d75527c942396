-- ===== src/Fuji/Setup/Access.antt =====
-- Waiting for the camera's access (lib/fuji.c: `fuji_setup`).
use libfuji.Common.{
  ◌∙◌, ℕ, zero, suc, ◌≤◌, ◌≡◌, ◌≢◌, ◌⊎◌, inl, inr, refl, true, false, some, if-holds, arith,
}
use libfuji.Fuji.Session.{ok, PtpRuntime, Port}
use libfuji.Fuji.Versions.{minus_one}
use libfuji.Fuji.Ends.{Ends, Ends-at}
use libfuji.Fuji.Events.{fuji_get_events}
use libfuji.Fuji.Setup.{is_waiting, wait_for_access}
use libfuji.Fuji.Steps.{Step, ◌and_then◌, finished, reading, out_of_fuel}
use libfuji.Fuji.Steps.Ensures.{Ensures, Ensures-last}

module _ {W : Type 0} (port : Port W) where
  -- Asking for events `n` times, without looking at the state.
  unfoldable pub polls : ℕ → Step W
  polls zero = finished ok
  polls (suc n) = fuji_get_events port and_then polls n

  -- The camera lets the session wait for `n` polls, none of which fails, and then grants access in
  -- `r'`: until then the camera's state is 0, waiting for access, or -1, not known, and then it is
  -- neither.
  pub data Grants : ℕ → PtpRuntime W → PtpRuntime W → Type 0 where
    granted :
        {r : PtpRuntime W}
        → r.fuji.camera_state ≢ 0
        → r.fuji.camera_state ≢ minus_one
        → Grants 0 r r
    polled :
        {n : ℕ} {r s t : PtpRuntime W}
        → (r.fuji.camera_state ≡ 0) ⊎ (r.fuji.camera_state ≡ minus_one)
        → fuji_get_events port r ≡ some (s, ok)
        → Grants n s t
        → Grants (suc n) r t

  waits :
      (r : PtpRuntime W)
      → (r.fuji.camera_state ≡ 0) ⊎ (r.fuji.camera_state ≡ minus_one)
      → is_waiting r ≡ true
  unfolding is_waiting
  waits r (inl h) = rw h refl
  waits r (inr h) = rw h refl

  goes_on :
      (r : PtpRuntime W)
      → r.fuji.camera_state ≢ 0
      → r.fuji.camera_state ≢ minus_one
      → is_waiting r ≡ false
  unfolding is_waiting
  goes_on r h k = ground (arith, h, k)

  poll :
      (r s : PtpRuntime W) (k : Step W)
      → fuji_get_events port r ≡ some (s, ok)
      → (fuji_get_events port and_then k) r ≡ k s
  unfolding ◌and_then◌
  poll r s k e = rw e

  -- Where the camera's state is 0 or -1 before each of `n` polls, none of them fails, and the state is
  -- neither 0 nor -1 after them, the loop with fuel for `n` or more polls ends, in the state after those
  -- polls, with 0.
  pub wait_for_access-granted :
      (n fuel : ℕ) (r r' : PtpRuntime W)
      → Grants n r r'
      → n ≤ fuel
      → (wait_for_access port fuel r ≡ some (r', ok)) × (polls n r ≡ some (r', ok))
  unfolding wait_for_access polls reading finished
  wait_for_access-granted n zero r r' (granted h k) l = (rw (goes_on r h k) refl, refl)
  wait_for_access-granted n (suc fuel) r r' (granted h k) l = (rw (goes_on r h k) refl, refl)
  wait_for_access-granted (suc n) zero r r' (polled h e g) l = absurd (omega arith)
  wait_for_access-granted (suc n) (suc fuel) r r' (polled {s = s} h e g) l =
      let (a, b) = wait_for_access-granted n fuel s r' g (omega arith) in
      (rw (waits r h) (poll r s (wait_for_access port fuel) e ∙ a), poll r s (polls n) e ∙ b)

  -- The loop returns 0 only with access granted, and then that is what `polls` came to.
  wait_for_access-Ensures :
      (fuel : ℕ) → Ensures (λ r. is_waiting r ≡ false) (wait_for_access port fuel)
  unfolding wait_for_access reading finished out_of_fuel
  wait_for_access-Ensures zero = record {
    at = λ r.
        if-holds (λ (f : Step W). Ends (λ s rc. rc ≡ ok → is_waiting s ≡ false) (f r))
          (is_waiting r) out_of_fuel (finished ok) (λ _. tt) (λ h _. h);
  }
  wait_for_access-Ensures (suc fuel) = record {
    at = λ r.
        if-holds (λ (f : Step W). Ends (λ s rc. rc ≡ ok → is_waiting s ≡ false) (f r))
          (is_waiting r) (fuji_get_events port and_then wait_for_access port fuel) (finished ok)
          (λ _.
            (Ensures-last (λ r. is_waiting r ≡ false) (fuji_get_events port)
                (wait_for_access port fuel) (wait_for_access-Ensures fuel)).at
              r)
          (λ h _. h);
  }

  -- With any fuel, where the loop returns 0 the camera's state is known and is not the state in which
  -- the session waits.
  pub wait_for_access-is_waiting :
      (fuel : ℕ) (r r' : PtpRuntime W)
      → wait_for_access port fuel r ≡ some (r', ok)
      → is_waiting r' ≡ false
  wait_for_access-is_waiting fuel r r' e =
      Ends-at (λ s rc. rc ≡ ok → is_waiting s ≡ false) (wait_for_access port fuel r) r' ok
        ((wait_for_access-Ensures fuel).at r) e refl
