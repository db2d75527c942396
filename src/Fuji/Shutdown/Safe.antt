-- ===== src/Fuji/Shutdown/Safe.antt =====
-- What holds whenever threads report errors (lib/fuji.c: `ptp_report_error`).
use libfuji.Common.{
  ℕ, ◌+◌, ◌≡◌, ◌≢◌, inl, inr, refl, sym, ◌∙◌, ap, subst, Bool, true, false, Bool-cases, none, some,
  ◌==◌, ==_iff, if◌then◌else◌, arith,
}
use libfuji.Fuji.Shutdown.Threads.{Pc, past_test, inside, closed_down, returned, Shared, move}

-- With the mutex taken.
abbrev pub IsIn : Pc → Type 0
IsIn inside = Unit
IsIn closed_down = Unit
IsIn p = ⊥

-- Exactly the holder is inside. The connection has been closed once when the switch is set or a thread is about
-- to set it, and not at all before. A thread has returned only with the switch set.
pub record IsSafe (s : Shared) : Type 0 where
  pub holds : (t : ℕ) → IsIn (s.pc t) → s.holder ≡ some t
  pub is_held : (t : ℕ) → s.holder ≡ some t → IsIn (s.pc t)
  pub closed : s.kill_switch ≡ true → s.closings ≡ 1
  pub untouched : s.kill_switch ≡ false → ((t : ℕ) → s.pc t ≢ closed_down) → s.closings ≡ 0
  pub pending : (t : ℕ) → s.pc t ≡ closed_down → (s.kill_switch ≡ false) × (s.closings ≡ 1)
  pub after : (t : ℕ) → s.pc t ≡ returned → s.kill_switch ≡ true

module _ (t : ℕ) (p : Pc) (pc : ℕ → Pc) where
  moved : move t p pc t ≡ p
  unfolding move
  moved = ground arith

  -- What holds of the thread's new place and of the other threads' holds of all.
  all_moved : (P : ℕ → Pc → Type 0) (u : ℕ) → P t p → (u ≢ t → P u (pc u)) → P u (move t p pc u)
  unfolding move
  all_moved P u h k = elim (Bool-cases (u == t)) [
    | inl e ↦
        subst (λ (b : Bool). P u (if b then p else pc u)) (sym e)
          (subst (λ v. P v p) (sym ((==_iff u t).0 e)) h)
    | inr e ↦ subst (λ (b : Bool). P u (if b then p else pc u)) (sym e) (k (λ x. ground (arith, e)))
  ]

  still_open :
      pc t ≢ closed_down → ((u : ℕ) → move t p pc u ≢ closed_down) → (u : ℕ) → pc u ≢ closed_down
  unfolding move
  still_open n h u e = elim (Bool-cases (u == t)) [
    | inl b ↦ n (ap pc (sym ((==_iff u t).0 b)) ∙ e)
    | inr b ↦ h u (rw b e)
  ]

pub is_in : (p q : Pc) → p ≡ q → IsIn q → IsIn p
is_in p q e h = subst IsIn (sym e) h

module _ {s : Shared} (i : IsSafe s) (t : ℕ) where
  -- A thread that is not inside, before and after.
  pub outside-IsSafe :
      (p : Pc)
      → (IsIn (s.pc t) → ⊥)
      → (IsIn p → ⊥)
      → (p ≡ returned → s.kill_switch ≡ true)
      → IsSafe (record s { pc = move t p s.pc })
  outside-IsSafe p n m k = record {
    holds = λ u.
        all_moved t p s.pc (λ u q. IsIn q → s.holder ≡ some u) u (λ x. absurd (m x))
          (λ _. i.holds u);
    is_held = λ u.
        all_moved t p s.pc (λ u q. s.holder ≡ some u → IsIn q) u (λ h. absurd (n (i.is_held t h)))
          (λ _. i.is_held u);
    closed = i.closed;
    untouched = λ e h. i.untouched e (still_open t p s.pc (λ e. n (is_in _ closed_down e tt)) h);
    pending = λ u.
        all_moved t p s.pc (λ u q. q ≡ closed_down → (s.kill_switch ≡ false) × (s.closings ≡ 1)) u
          (λ e. absurd (m (is_in p closed_down e tt))) (λ _. i.pending u);
    after =
        λ u. all_moved t p s.pc (λ u q. q ≡ returned → s.kill_switch ≡ true) u k (λ _. i.after u);
  }

  pub others_out : s.holder ≡ some t → (u : ℕ) → u ≢ t → IsIn (s.pc u) → ⊥
  others_out h u n x = let e : some u ≡ some t = sym (i.holds u x) ∙ h in n (ground (arith, e))

  pub lock-IsSafe :
      s.pc t ≡ past_test
      → s.holder ≡ none
      → IsSafe (record s { pc = move t inside s.pc; holder = some t })
  lock-IsSafe e h = record {
    holds = λ u.
        all_moved t inside s.pc (λ u q. IsIn q → some t ≡ some u) u (λ x. refl)
          (λ _ x. absurd (let a : none ≡ some u = sym h ∙ i.holds u x in ground arith));
    is_held = λ u.
        all_moved t inside s.pc (λ u q. some t ≡ some u → IsIn q) u (λ _. tt)
          (λ n e. absurd (n (ground (arith, e))));
    closed = i.closed;
    untouched = λ a k. i.untouched a (still_open t inside s.pc (λ b. ground (arith, e, b)) k);
    pending = λ u.
        all_moved t inside s.pc
          (λ u q. q ≡ closed_down → (s.kill_switch ≡ false) × (s.closings ≡ 1)) u
          (λ e. absurd (ground arith)) (λ _. i.pending u);
    after = λ u.
        all_moved t inside s.pc (λ u q. q ≡ returned → s.kill_switch ≡ true) u
          (λ e. absurd (ground arith)) (λ _. i.after u);
  }

  -- Leaving with the switch set.
  pub leave-IsSafe :
      IsIn (s.pc t)
      → s.closings ≡ 1
      → IsSafe (record s { pc = move t returned s.pc; holder = none; kill_switch = true })
  leave-IsSafe x c = record {
    holds = λ u.
        all_moved t returned s.pc (λ u q. IsIn q → none ≡ some u) u (λ y. absurd y)
          (λ n y. absurd (others_out (i.holds t x) u n y));
    is_held = λ u e. absurd (ground (arith, e));
    closed = λ _. c;
    untouched = λ e. absurd (ground arith);
    pending = λ u.
        all_moved t returned s.pc (λ u q. q ≡ closed_down → (true ≡ false) × (s.closings ≡ 1)) u
          (λ e. absurd (ground arith))
          (λ n e. absurd (others_out (i.holds t x) u n (is_in _ closed_down e tt)));
    after = λ u _. refl;
  }

  pub close-IsSafe :
      s.pc t ≡ inside
      → s.kill_switch ≡ false
      → IsSafe (record s { pc = move t closed_down s.pc; closings = s.closings + 1 })
  close-IsSafe e k =
      let h : s.holder ≡ some t = i.holds t (is_in _ inside e tt) in
      let z : s.closings ≡ 0 = i.untouched k (λ u c. elim (Bool-cases (u == t)) [
        | inl b ↦
            let d : s.pc t ≡ closed_down = ap s.pc (sym ((==_iff u t).0 b)) ∙ c in
            ground (arith, d, e)
        | inr b ↦ others_out h u (λ x. ground (arith, b)) (is_in _ closed_down c tt)
      ]) in
      record {
        holds = λ u.
            all_moved t closed_down s.pc (λ u q. IsIn q → s.holder ≡ some u) u (λ _. h)
              (λ _. i.holds u);
        is_held = λ u.
            all_moved t closed_down s.pc (λ u q. s.holder ≡ some u → IsIn q) u (λ _. tt)
              (λ _. i.is_held u);
        closed = λ a. absurd (ground (arith, k, a));
        untouched = λ _ n. absurd (n t (moved t closed_down s.pc));
        pending = λ u.
            all_moved t closed_down s.pc
              (λ u q. q ≡ closed_down → (s.kill_switch ≡ false) × (s.closings + 1 ≡ 1)) u
              (λ _. (k, omega (arith, z)))
              (λ n c. absurd (others_out h u n (is_in _ closed_down c tt)));
        after = λ u.
            all_moved t closed_down s.pc (λ u q. q ≡ returned → s.kill_switch ≡ true) u
              (λ e. absurd (ground arith)) (λ _. i.after u);
      }
