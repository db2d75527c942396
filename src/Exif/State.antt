-- ===== src/Exif/State.antt =====
-- The state of the EXIF parser (lib/exif.h) and what its functions are made of. The buffer is a memory: a
-- byte that it does not have, or that nothing has written, is `none`, and reading it is undefined.
use libfuji.Common.{
  ℕ, zero, suc, ◌+◌, ◌*◌, ◌^◌, List, [], ◌∷◌, Option, none, some, Bool, true, ◌==◌, ◌&&◌,
  ◌>>=◌ as ◌bind◌,
}

abbrev pub Memory : Type 0
Memory = ℕ → Option ℕ

-- `get_more`: the buffer, the new length and the old one. It may fail (`NULL`), or be undefined.
abbrev pub GetMore : Type 0 → Type 0
GetMore W = Memory → ℕ → ℕ → W → Option (W × Option Memory)

-- `struct ExifParser`, with the outside that `arg` points to.
pub record ExifParser (W : Type 0) : Type 0 where
  pub world : W
  pub buf : Memory
  pub length : ℕ
  pub exif_start : ℕ
  pub get_more : Option (GetMore W)
  pub subifd : ℕ
  pub thumb_of : ℕ
  pub thumb_size : ℕ

-- What `get_more` gives.
abbrev pub More : Type 0 → Type 0
More W = Option (W × Option Memory)

-- A function's result: nothing where it is undefined, and no value where it returns -1.
abbrev pub Answer : Type 0 → Type 0 → Type 0
Answer W A = Option (ExifParser W × Option A)

abbrev pub Parser : Type 0 → Type 0 → Type 0
Parser W A = ExifParser W → Answer W A

module _ {W : Type 0} where
  unfoldable pub yield : {A : Type 0} → A → Parser W A
  yield a c = some (c, some a)

  unfoldable pub fail : {A : Type 0} → Parser W A
  fail c = some (c, none)

  -- `if (…) return -1;`
  infixl 5 ◌>>=◌
  unfoldable pub ◌>>=◌ : {A B : Type 0} → Parser W A → (A → Parser W B) → Parser W B
  (p >>= k) c = elim (p c) [
    | none ↦ none
    | some r ↦ elim r.1 [ none ↦ some (r.0, none) | some a ↦ k a r.0 ]
  ]

  -- A look at the state that may be undefined.
  unfoldable pub look : {A : Type 0} → (ExifParser W → Option A) → Parser W A
  look f c = elim (f c) [ none ↦ none | some a ↦ some (c, some a) ]

  unfoldable pub get : {A : Type 0} → (ExifParser W → A) → Parser W A
  get f c = some (c, some (f c))

  unfoldable pub modify : (ExifParser W → ExifParser W) → Parser W Unit
  modify f c = some (f c, some tt)

-- The reads; the processor is little-endian, and `be` swaps the bytes.
unfoldable pub mem_u16 : Memory → ℕ → Option ℕ
mem_u16 m of = m of bind λ a. m (of + 1) bind λ b. some (a + b * 2 ^ 8)

unfoldable pub mem_be_u16 : Memory → ℕ → Option ℕ
mem_be_u16 m of = m of bind λ a. m (of + 1) bind λ b. some (a * 2 ^ 8 + b)

unfoldable pub mem_u32 : Memory → ℕ → Option ℕ
mem_u32 m of = m of bind λ a. m (of + 1) bind λ b.
    m (of + 2) bind λ c. m (of + 3) bind λ d. some (a + b * 2 ^ 8 + c * 2 ^ 16 + d * 2 ^ 24)

unfoldable pub mem_be_u32 : Memory → ℕ → Option ℕ
mem_be_u32 m of = m of bind λ a. m (of + 1) bind λ b.
    m (of + 2) bind λ c. m (of + 3) bind λ d. some (a * 2 ^ 24 + b * 2 ^ 16 + c * 2 ^ 8 + d)

-- `!memcmp`, which may read all the bytes.
unfoldable pub mem_equal : List ℕ → Memory → ℕ → Option Bool
mem_equal [] m of = some true
mem_equal (x ∷ xs) m of = m of bind λ a. mem_equal xs m (of + 1) bind λ b. some (a == x && b)

-- A buffer of which the bytes of the list are known.
unfoldable pub memory : List ℕ → Memory
memory [] i = none
memory (x ∷ xs) zero = some x
memory (x ∷ xs) (suc i) = memory xs i
