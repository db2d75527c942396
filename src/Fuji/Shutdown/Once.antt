-- ===== src/Fuji/Shutdown/Once.antt =====
-- However threads that report errors interleave (lib/fuji.c: `ptp_report_error`), the connection is closed
-- once.
use libfuji.Common.{
  ℕ, ◌≤◌, ◌≡◌, ◌≢◌, ◌⊎◌, inl, inr, refl, sym, ◌∙◌, subst, true, false, Bool-cases, Option, none,
  some, ◌==◌, arith,
}
use libfuji.Fuji.Shutdown.Threads.{
  Pc, entered, past_test, inside, closed_down, returned, Shared, move, Moves, return_early, test,
  lock, give_up, close, set_switch, Reaches, here, then, at_start,
}
use libfuji.Fuji.Shutdown.Safe.{
  IsIn, is_in, IsSafe, outside-IsSafe, lock-IsSafe, leave-IsSafe, close-IsSafe,
}

start-IsSafe : IsSafe at_start
start-IsSafe = record {
  holds = λ t x. absurd x;
  is_held = λ t e. absurd (ground (arith, e));
  closed = λ e. absurd (ground arith);
  untouched = λ _ _. refl;
  pending = λ t e. absurd (ground arith);
  after = λ t e. absurd (ground arith);
}

Moves-IsSafe : (s s' : Shared) → Moves s s' → IsSafe s → IsSafe s'
Moves-IsSafe s s' (return_early t e k) i =
    outside-IsSafe i t returned (λ x. subst IsIn e x) (λ x. x) (λ _. k)
Moves-IsSafe s s' (test t e k) i =
    outside-IsSafe i t past_test (λ x. subst IsIn e x) (λ x. x) (λ y. absurd (ground (arith, y)))
Moves-IsSafe s s' (lock t e h) i = lock-IsSafe i t e h
Moves-IsSafe s s' (give_up t e k) i =
    let left = leave-IsSafe i t (is_in _ inside e tt) (i.closed k) in
    subst (λ b. IsSafe (record s { pc = move t returned s.pc; holder = none; kill_switch = b }))
      (sym k) left
Moves-IsSafe s s' (close t e k) i = close-IsSafe i t e k
Moves-IsSafe s s' (set_switch t e) i = leave-IsSafe i t (is_in _ closed_down e tt) (i.pending t e).1

Reaches-IsSafe : (s s' : Shared) → Reaches s s' → IsSafe s → IsSafe s'
Reaches-IsSafe s s' here i = i
Reaches-IsSafe s s' (then {t = t} r m) i = Moves-IsSafe t s' m (Reaches-IsSafe s t r i)

-- With the switch not set and no thread about to set it, nothing was closed.
at_most : (s : Shared) → IsSafe s → s.closings ≤ 1
at_most s i = elim (Bool-cases s.kill_switch) [
  | inl k ↦ omega (arith, i.closed k)
  | inr k ↦ by_holder s.holder refl k
]
  where
    none_down :
        ((u : ℕ) → s.holder ≡ some u → s.pc u ≢ closed_down) → (u : ℕ) → s.pc u ≢ closed_down
    none_down h u e = h u (i.holds u (is_in _ closed_down e tt)) e

    by_place :
        (u : ℕ) (p : Pc) → s.holder ≡ some u → s.pc u ≡ p → s.kill_switch ≡ false → s.closings ≤ 1
    by_place u closed_down h e k = omega (arith, (i.pending u e).1)
    by_place u p h e k = omega (
      arith,
      i.untouched k (
          none_down (λ v g f.
            let same : some u ≡ some v = sym h ∙ g in
            let down : s.pc u ≡ closed_down =
              subst (λ w. s.pc w ≡ closed_down) (ground (arith, same)) f in
            ground (arith, e, down))),
    )

    by_holder : (o : Option ℕ) → s.holder ≡ o → s.kill_switch ≡ false → s.closings ≤ 1
    by_holder none h k = omega (
      arith,
      i.untouched k
          (none_down (λ u g. let e : none ≡ some u = sym h ∙ g in absurd (ground (arith, e)))),
    )
    by_holder (some u) h k = by_place u (s.pc u) h refl k

-- Whatever threads report errors, and however their steps interleave: the connection is closed at most once,
-- and exactly once when some thread has returned, which then finds the kill switch set.
pub report_error-closes_once :
    (s : Shared) (t : ℕ)
    → Reaches at_start s
    → (s.closings ≤ 1) × ((s.pc t ≢ returned) ⊎ ((s.kill_switch ≡ true) × (s.closings ≡ 1)))
report_error-closes_once s t r =
    let i = Reaches-IsSafe at_start s r start-IsSafe in (at_most s i, place (s.pc t) refl i)
  where
    place :
        (p : Pc)
        → s.pc t ≡ p
        → IsSafe s
        → (s.pc t ≢ returned) ⊎ ((s.kill_switch ≡ true) × (s.closings ≡ 1))
    place returned e i = inr (i.after t e, i.closed (i.after t e))
    place p e i = inl (λ x. ground (arith, e, x))

move-at : (t : ℕ) (p : Pc) (f : ℕ → Pc) → move t p f t ≡ p
unfolding move
move-at t p f = let e : (t == t) ≡ true = ground arith in rw e refl

-- Thread `t` can do its next step, which takes it on.
pub GoesOn : Shared → ℕ → Type 0
GoesOn s t = (s' : Shared) × Moves s s' × (s'.pc t ≢ s.pc t)

goes_on :
    (s s' : Shared) (t : ℕ) (p q : Pc) → Moves s s' → s.pc t ≡ p → s'.pc t ≡ q → q ≢ p → GoesOn s t
unfolding GoesOn
goes_on s s' t p q m e f n = (s', m, λ x. n (sym f ∙ x ∙ e))

-- The holder of the mutex can go on.
holder-GoesOn : (s : Shared) (u : ℕ) (p : Pc) → IsIn p → s.pc u ≡ p → GoesOn s u
holder-GoesOn s u inside x e = elim (Bool-cases s.kill_switch) [
  | inl k ↦ goes_on s _ u inside returned (give_up u e k) e (move-at u returned s.pc) (λ f. cc)
  | inr k ↦ goes_on s _ u inside closed_down (close u e k) e (move-at u closed_down s.pc) (λ f. cc)
]
holder-GoesOn s u closed_down x e =
    goes_on s _ u closed_down returned (set_switch u e) e (move-at u returned s.pc) (λ f. cc)
holder-GoesOn s u p x e = absurd x

-- However the threads got there: a thread has returned, or it can itself do its next step, or it
-- waits for the mutex in front of the second test, and then the mutex has a holder, which can do its
-- next step.
pub report_error-never_stuck :
    (s : Shared) (t : ℕ)
    → Reaches at_start s
    → (s.pc t ≡ returned)
      ⊎ (GoesOn s t ⊎ ((s.pc t ≡ past_test) × ((u : ℕ) × (s.holder ≡ some u) × GoesOn s u)))
report_error-never_stuck s t r = go (s.pc t) refl (Reaches-IsSafe at_start s r start-IsSafe)
  where
    waits :
        (o : Option ℕ)
        → s.holder ≡ o
        → IsSafe s
        → s.pc t ≡ past_test
        → GoesOn s t ⊎ ((s.pc t ≡ past_test) × ((u : ℕ) × (s.holder ≡ some u) × GoesOn s u))
    waits none h i e =
        inl (goes_on s _ t past_test inside (lock t e h) e (move-at t inside s.pc) (λ f. cc))
    waits (some u) h i e = inr (e, (u, h, holder-GoesOn s u (s.pc u) (i.is_held u h) refl))

    go :
        (p : Pc)
        → s.pc t ≡ p
        → IsSafe s
        → (s.pc t ≡ returned)
          ⊎ (GoesOn s t ⊎ ((s.pc t ≡ past_test) × ((u : ℕ) × (s.holder ≡ some u) × GoesOn s u)))
    go entered e i = elim (Bool-cases s.kill_switch) [
      | inl k ↦ inr (
          inl (
            goes_on s _ t entered returned (return_early t e k) e (move-at t returned s.pc)
              (λ f. cc)))
      | inr k ↦ inr (
          inl (goes_on s _ t entered past_test (test t e k) e (move-at t past_test s.pc) (λ f. cc)))
    ]
    go past_test e i = inr (waits s.holder refl i e)
    go returned e i = inl e
    go inside e i = inr (inl (holder-GoesOn s t inside tt e))
    go closed_down e i = inr (inl (holder-GoesOn s t closed_down tt e))
