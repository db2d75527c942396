-- ===== src/Common/Bytes.antt =====
-- The fixed-width casts of C, and little-endian integers in byte buffers (fp/src/d185.c, lib/exif.c,
-- and libpict's readers on the same layout). A buffer is the list of its bytes; a read outside it is
-- undefined in C, and `none` here.
use Prim.Native.Nat.{ℕ, ◌+◌, ◌*◌, ◌/◌, ◌%◌, ◌^◌, ◌<◌, ◌-◌}
use mathlib.Core.Path.{◌≡◌, refl, ap}
use mathlib.Core.List.{List, [], ◌∷◌, ◌++◌}
use mathlib.Core.Option.{Option, some}
use native.Mathlib.Omega.{arith}
use libfuji.Common.Tests.{◌>>=◌}
use libfuji.Common.Lists.{length, get_elem?, get_elem?-append_right, get_elem?-lt}

abbrev pub u8 : ℕ → ℕ
u8 v = v % 2 ^ 8

abbrev pub u16 : ℕ → ℕ
u16 v = v % 2 ^ 16

abbrev pub u32 : ℕ → ℕ
u32 v = v % 2 ^ 32

-- `-n` stored in a `uint32_t`.
abbrev pub neg32 : ℕ → ℕ
neg32 n = 2 ^ 32 - n

unfoldable pub read_u8 : List ℕ → ℕ → Option ℕ
read_u8 b of = get_elem? b of

unfoldable pub read_u16 : List ℕ → ℕ → Option ℕ
read_u16 b of = do b0 ← get_elem? b of; b1 ← get_elem? b (of + 1); some (b0 + b1 * 2 ^ 8)

unfoldable pub read_u32 : List ℕ → ℕ → Option ℕ
read_u32 b of = do
  b0 ← get_elem? b of
  b1 ← get_elem? b (of + 1)
  b2 ← get_elem? b (of + 2)
  b3 ← get_elem? b (of + 3)
  some (b0 + b1 * 2 ^ 8 + b2 * 2 ^ 16 + b3 * 2 ^ 24)

-- The bytes that a little-endian write stores, in order.
abbrev pub le16 : ℕ → List ℕ
le16 v = v % 256 ∷ v / 2 ^ 8 % 256 ∷ []

abbrev pub le32 : ℕ → List ℕ
le32 v = v % 256 ∷ v / 2 ^ 8 % 256 ∷ v / 2 ^ 16 % 256 ∷ v / 2 ^ 24 % 256 ∷ []

pub at-append {ℓ} :
    {A : Type ℓ} (pre ys : List A) (of i k : ℕ)
    → of ≡ length pre
    → i ≡ of + k
    → get_elem? (pre ++ ys) i ≡ get_elem? ys k
at-append pre ys of i k e f =
    let g : i ≡ length pre + k = omega arith in rw g (get_elem?-append_right pre ys k)

pub read_u8-append :
    (pre post : List ℕ) (v of : ℕ) → of ≡ length pre → read_u8 (pre ++ v ∷ post) of ≡ some v
unfolding read_u8
read_u8-append pre post v of e = at-append pre (v ∷ post) of of 0 e (omega arith)

-- A value written after `pre` is read back at `length pre`.
pub read_u16-append :
    (pre post : List ℕ) (v of : ℕ)
    → v < 2 ^ 16
    → of ≡ length pre
    → read_u16 (pre ++ (le16 v ++ post)) of ≡ some v
unfolding read_u16
read_u16-append pre post v of h e =
    rw
      (
        at-append pre (le16 v ++ post) of of 0 e (omega arith),
        at-append pre (le16 v ++ post) of (of + 1) 1 e refl,
      )
      (ap some (omega arith))

pub read_u32-append :
    (pre post : List ℕ) (v of : ℕ)
    → v < 2 ^ 32
    → of ≡ length pre
    → read_u32 (pre ++ (le32 v ++ post)) of ≡ some v
unfolding read_u32
read_u32-append pre post v of h e =
    rw
      (
        at-append pre (le32 v ++ post) of of 0 e (omega arith),
        at-append pre (le32 v ++ post) of (of + 1) 1 e refl,
        at-append pre (le32 v ++ post) of (of + 2) 2 e refl,
        at-append pre (le32 v ++ post) of (of + 3) 3 e refl,
      )
      (ap some (omega arith))

-- A read inside the buffer does not fault.
pub read_u8-lt : (b : List ℕ) (of : ℕ) → of < length b → (v : ℕ) × (read_u8 b of ≡ some v)
unfolding read_u8
read_u8-lt b of h = get_elem?-lt b of h

pub read_u16-lt : (b : List ℕ) (of : ℕ) → of + 1 < length b → (v : ℕ) × (read_u16 b of ≡ some v)
unfolding read_u16
read_u16-lt b of h =
    let (b0, e0) = get_elem?-lt b of (omega arith) in
    let (b1, e1) = get_elem?-lt b (of + 1) h in (b0 + b1 * 2 ^ 8, rw (e0, e1))

pub read_u32-lt : (b : List ℕ) (of : ℕ) → of + 3 < length b → (v : ℕ) × (read_u32 b of ≡ some v)
unfolding read_u32
read_u32-lt b of h =
    let (b0, e0) = get_elem?-lt b of (omega arith) in
    let (b1, e1) = get_elem?-lt b (of + 1) (omega arith) in
    let (b2, e2) = get_elem?-lt b (of + 2) (omega arith) in
    let (b3, e3) = get_elem?-lt b (of + 3) h in
    (b0 + b1 * 2 ^ 8 + b2 * 2 ^ 16 + b3 * 2 ^ 24, rw (e0, e1, e2, e3))
