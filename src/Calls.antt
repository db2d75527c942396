-- ===== src/Calls.antt =====
-- Functions that are chains of calls of the outside, for lib/discovery.c and lib/bluetooth.c: how
-- they are put together. An `int` is the bit pattern of its 32 bits.
pub mod Counts
use libfuji.Common.{ℕ, ◌^◌, ◌-◌, leb, Bool, not, ◌||◌, ◌==◌, Option, none, some}

-- What a function does to the outside, and its result; `none` is undefined in C.
abbrev pub Io : Type 0 → Type 0 → Type 0
Io W A = W → Option (W × A)

module _ {W A : Type 0} where
  unfoldable pub done : A → Io W A
  done a w = some (w, a)

  unfoldable pub undefined : Io W A
  undefined w = none

  -- A call with a result.
  unfoldable pub ask : {B : Type 0} → (W → W × B) → (B → Io W A) → Io W A
  ask op k w = k (op w).1 (op w).0

  -- A call whose result is not looked at.
  unfoldable pub tell : (W → W) → Io W A → Io W A
  tell op f w = f (op w)

  unfoldable pub look : {B : Type 0} → (W → B) → (B → Io W A) → Io W A
  look get k w = k (get w) w

  -- A call of a function of the same kind.
  unfoldable pub using : {B : Type 0} → Io W B → (B → Io W A) → Io W A
  using f k w = elim (f w) [ none ↦ none | some p ↦ k p.1 p.0 ]

-- `-1`.
abbrev pub failed : ℕ
failed = 2 ^ 32 - 1

abbrev pub is_negative : ℕ → Bool
is_negative v = leb (2 ^ 31) v

abbrev pub is_positive : ℕ → Bool
is_positive v = not (v == 0 || is_negative v)
