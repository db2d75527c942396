-- ===== src/Exif/Entries.antt =====
-- The entries of a directory, as the EXIF parser (lib/exif.c) reads them.
use libfuji.Common.{
  subst, sym, ◌∙◌, ap, u32, ℕ, zero, suc, ◌+◌, ◌*◌, ◌^◌, ◌<◌, ◌≤◌, ◌≡◌, refl, List, [], ◌∷◌, Option,
  some, ◌==◌, if◌then◌else◌, le→ltb, arith, ◌>>=◌ as ◌bind◌,
}
use libfuji.Exif.State.{modify, yield, Memory, ExifParser, Parser, ◌>>=◌, look, mem_u16, mem_u32}
use libfuji.Exif.{parse_entries, ensure_size, peek, note_entry}
use libfuji.Exif.Sound.{IsFilled}

-- `left` entries from the cursor on: their tags and values, 12 bytes each.
unfoldable pub entries_at : Memory → ℕ → ℕ → Option (List (ℕ × ℕ))
entries_at m zero of = some []
entries_at m (suc left) of = mem_u16 m of bind λ tag. mem_u32 m (of + 8) bind λ value.
    entries_at m left (of + 12) bind λ rest. some ((tag, value) ∷ rest)

-- The value of the last entry with the tag, or what stood before.
unfoldable pub last_entry : ℕ → List (ℕ × ℕ) → ℕ → ℕ
last_entry tag [] old = old
last_entry tag ((t, v) ∷ es) old = last_entry tag es (if t == tag then v else old)

-- The values counted from a start.
unfoldable pub from_start : ℕ → List (ℕ × ℕ) → List (ℕ × ℕ)
from_start start [] = []
from_start start ((t, v) ∷ es) = (t, u32 (start + v)) ∷ from_start start es

u16_at : (m : Memory) (n of : ℕ) → IsFilled n m → of + 1 < n → (v : ℕ) × (mem_u16 m of ≡ some v)
unfolding mem_u16
u16_at m n of f l =
    let (a, x) = f of (omega arith) in let (b, y) = f (of + 1) l in (a + b * 2 ^ 8, rw (x, y) refl)

u32_at : (m : Memory) (n of : ℕ) → IsFilled n m → of + 3 < n → (v : ℕ) × (mem_u32 m of ≡ some v)
unfolding mem_u32
u32_at m n of f l =
    let (a, x) = f of (omega arith) in
    let (b, y) = f (of + 1) (omega arith) in
    let (c, z) = f (of + 2) (omega arith) in
    let (d, w) = f (of + 3) l in (a + b * 2 ^ 8 + c * 2 ^ 16 + d * 2 ^ 24, rw (x, y, z, w) refl)

small : (v : ℕ) → v < 2 ^ 32 → u32 v ≡ v
small v l = omega (arith, l)

module _ {W : Type 0} where
  bind_done :
      {A B : Type 0} (p : Parser W A) (k : A → Parser W B) (c d : ExifParser W) (a : A)
      → p c ≡ some (d, some a)
      → (p >>= k) c ≡ k a d
  unfolding ◌>>=◌
  bind_done p k c d a e = rw (◌>>=◌, e) refl

  peek_at :
      {A B : Type 0} (f : Memory → ℕ → Option A) (of : ℕ) (k : A → Parser W B) (c : ExifParser W)
      (a : A)
      → f c.buf of ≡ some a
      → (peek f of >>= k) c ≡ k a c
  unfolding peek look
  peek_at f of k c a e = bind_done (peek f of) k c c a (rw (look, e) refl)

  enough :
      {B : Type 0} (n : ℕ) (k : Unit → Parser W B) (c : ExifParser W)
      → n ≤ c.length
      → (ensure_size n >>= k) c ≡ k tt c
  unfolding ensure_size
  enough n k c l = bind_done (ensure_size n) k c c tt (rw (le→ltb c.length n l) refl)

  -- The state that the entries leave.
  unfoldable noted : List (ℕ × ℕ) → ExifParser W → ExifParser W
  noted [] c = c
  noted ((t, v) ∷ es) c = noted es (note_entry t v c)

  note_entry-length : (t v : ℕ) (c : ExifParser W) → (note_entry t v c).length ≡ c.length
  unfolding note_entry
  note_entry-length t v c = ground arith

  note_entry-buf : (t v : ℕ) (c : ExifParser W) → (note_entry t v c).buf ≡ c.buf
  unfolding note_entry
  note_entry-buf t v c = ground arith

  parse_one :
      (left of : ℕ) (c : ExifParser W) (tag value : ℕ)
      → IsFilled c.length c.buf
      → of + 12 ≤ c.length
      → c.length < 2 ^ 32
      → mem_u16 c.buf of ≡ some tag
      → mem_u32 c.buf (of + 8) ≡ some value
      → parse_entries (suc left) of c ≡ parse_entries left (of + 12) (note_entry tag value c)
  unfolding parse_entries modify
  parse_one left of c tag value f l b e g =
      let (format, x) = u16_at c.buf c.length (of + 2) f (omega arith) in
      let (components, y) = u32_at c.buf c.length (of + 4) f (omega arith) in
      rw
        (
          small (of + 12) (omega arith),
          small (of + 2) (omega arith),
          small (of + 4) (omega arith),
          small (of + 8) (omega arith),
        )
        (enough (of + 12) _ c l
          ∙ peek_at mem_u16 of _ c tag e
          ∙ peek_at mem_u16 (of + 2) _ c format x
          ∙ peek_at mem_u32 (of + 4) _ c components y
          ∙ peek_at mem_u32 (of + 8) _ c value g
          ∙ bind_done (modify (note_entry tag value)) _ c (note_entry tag value c) tt refl)

  none_left :
      (of : ℕ) (c : ExifParser W) → parse_entries zero of c ≡ some (c, some (of + 12 * zero))
  unfolding parse_entries yield
  none_left of c = ap (λ (n : ℕ). some (c, some n)) (omega arith)

  noted_all :
      (left of : ℕ) (c : ExifParser W)
      → IsFilled c.length c.buf
      → of + 12 * left ≤ c.length
      → c.length < 2 ^ 32
      → (es : List (ℕ × ℕ)) × (entries_at c.buf left of ≡ some es)
        × (parse_entries left of c ≡ some (noted es c, some (of + 12 * left)))
  unfolding entries_at noted
  noted_all zero of c f l b = ([], refl, none_left of c)
  noted_all (suc left) of c f l b =
      let (tag, e) = u16_at c.buf c.length of f (omega arith) in
      let (value, g) = u32_at c.buf c.length (of + 8) f (omega arith) in
      let d : ExifParser W = note_entry tag value c in
      let (es, h, k) =
        noted_all left (of + 12) d
          (subst (λ (n : ℕ). IsFilled n d.buf) (sym (note_entry-length tag value c))
            (subst (IsFilled c.length) (sym (note_entry-buf tag value c)) f))
          (omega (arith, note_entry-length tag value c))
          (omega (arith, note_entry-length tag value c)) in
      (
        (tag, value) ∷ es,
        rw
            (
              e,
              g,
              subst (λ (m : Memory). entries_at m left (of + 12) ≡ some es)
                  (note_entry-buf tag value c) h,
            )
            refl,
        parse_one left of c tag value f (omega arith) b e g
            ∙ k
            ∙ ap (λ (n : ℕ). some (noted es d, some n)) (omega arith),
      )

  note_entry-fields :
      (t v : ℕ) (c : ExifParser W)
      → ((note_entry t v c).thumb_size ≡ (if t == 0x0202 then v else c.thumb_size))
        × ((note_entry t v c).thumb_of
            ≡ (if t == 0x0201 then u32 (c.exif_start + v) else c.thumb_of))
        × ((note_entry t v c).subifd ≡ (if t == 0x8769 then v else c.subifd))
        × ((note_entry t v c).exif_start ≡ c.exif_start)
  unfolding note_entry
  note_entry-fields t v c = (ground arith, ground arith, ground arith, ground arith)

  noted-fields :
      (es : List (ℕ × ℕ)) (c : ExifParser W)
      → ((noted es c).thumb_size ≡ last_entry 0x0202 es c.thumb_size)
        × ((noted es c).thumb_of ≡ last_entry 0x0201 (from_start c.exif_start es) c.thumb_of)
        × ((noted es c).subifd ≡ last_entry 0x8769 es c.subifd)
  unfolding noted last_entry from_start
  noted-fields [] c = (refl, refl, refl)
  noted-fields ((t, v) ∷ es) c =
      let (a, b, d) = noted-fields es (note_entry t v c) in
      let (x, y, z, w) = note_entry-fields t v c in
      (
        a ∙ ap (last_entry 0x0202 es) x,
        b
            ∙ ap (λ (n : ℕ). last_entry 0x0201 (from_start n es) (note_entry t v c).thumb_of) w
            ∙ ap (last_entry 0x0201 (from_start c.exif_start es)) y,
        d ∙ ap (last_entry 0x8769 es) z,
      )

  -- Where the buffer has `left` entries of 12 bytes at the cursor, and less than 2 ^ 32 bytes: the loop over the
  -- entries returns the cursor behind them; the thumbnail's size and offset, and the subdirectory, are those of
  -- the last entries about them.
  pub parse_entries-last_entry :
      (left of : ℕ) (c : ExifParser W)
      → IsFilled c.length c.buf
      → of + 12 * left ≤ c.length
      → c.length < 2 ^ 32
      → (es : List (ℕ × ℕ)) × (d : ExifParser W) × (entries_at c.buf left of ≡ some es)
        × (parse_entries left of c ≡ some (d, some (of + 12 * left)))
        × (d.thumb_size ≡ last_entry 0x0202 es c.thumb_size)
        × (d.thumb_of ≡ last_entry 0x0201 (from_start c.exif_start es) c.thumb_of)
        × (d.subifd ≡ last_entry 0x8769 es c.subifd)
  parse_entries-last_entry left of c f l b =
      let (es, e, p) = noted_all left of c f l b in
      let (x, y, z) = noted-fields es c in (es, noted es c, e, p, x, y, z)
