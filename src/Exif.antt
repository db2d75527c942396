-- ===== src/Exif.antt =====
-- The EXIF parser (lib/exif.c), which looks for the thumbnail.
pub mod Bounds
pub mod Entries
pub mod Sound
pub mod State
use libfuji.Common.{
  ℕ, zero, suc, ◌+◌, ◌-◌, ◌^◌, List, [], ◌∷◌, Option, none, some, Bool, true, false, ◌==◌, ◌&&◌,
  not, if◌then◌else◌, ltb, leb, u32,
}
use libfuji.Exif.State.{
  More, Answer, Memory, ExifParser, GetMore, Parser, yield, fail, ◌>>=◌, look, get, modify, mem_u16,
  mem_be_u16, mem_u32, mem_be_u32, mem_equal,
}

-- `(int)offset - 8`, which must not overflow.
unfoldable pub skip_header : ℕ → ℕ → Option ℕ
skip_header of offset =
    if leb (2 ^ 31) offset && ltb offset (2 ^ 31 + 8)
    then none
    else some (u32 (of + offset + (2 ^ 32 - 8)))

abbrev pub byte_at : Memory → ℕ → Option ℕ
byte_at m of = m of

module _ {W : Type 0} where
  -- The state after `get_more`, for each of its outcomes.
  unfoldable pub got_more : ExifParser W → ℕ → More W → Answer W Unit
  got_more c n none = none
  got_more c n (some (w, none)) = some (record c { world = w }, none)
  got_more c n (some (w, some m)) = some (record c { world = w; buf = m; length = n }, some tt)

  unfoldable pub ask_more : Option (GetMore W) → ℕ → Parser W Unit
  ask_more none n c = some (c, none)
  ask_more (some f) n c = got_more c n (f c.buf n c.length c.world)

  unfoldable pub ensure_size : ℕ → Parser W Unit
  ensure_size n c =
      if ltb c.length n then ask_more c.get_more (u32 (n + 1000)) c else some (c, some tt)

  unfoldable pub peek : {A : Type 0} → (Memory → ℕ → Option A) → ℕ → Parser W A
  peek f of = look (λ c. f c.buf of)

  -- One entry of a directory, by its tag.
  unfoldable pub note_entry : ℕ → ℕ → ExifParser W → ExifParser W
  note_entry tag value c =
      if tag == 0x0201
      then record c { thumb_of = u32 (c.exif_start + value) }
      else if tag == 0x0202
      then record c { thumb_size = value }
      else if tag == 0x8769
      then record c { subifd = value }
      else c

  -- The loop over the entries: the cursor behind them.
  unfoldable pub parse_entries : ℕ → ℕ → Parser W ℕ
  parse_entries zero of = yield of
  parse_entries (suc left) of = do
    _ ← ensure_size (u32 (of + 12))
    tag ← peek mem_u16 of
    format ← peek mem_u16 (u32 (of + 2))
    components ← peek mem_u32 (u32 (of + 4))
    value ← peek mem_u32 (u32 (of + 8))
    _ ← modify (note_entry tag value)
    parse_entries left (u32 (of + 12))

  unfoldable pub ensure_thumb : Parser W Unit
  ensure_thumb c =
      if not (c.thumb_of == 0) && not (c.thumb_size == 0)
      then ensure_size (u32 (c.thumb_of + c.thumb_size)) c
      else some (c, some tt)

  unfoldable pub exif_parse_ifd : ℕ → Parser W ℕ
  exif_parse_ifd of = do
    entries ← peek mem_u16 of
    of' ← parse_entries entries (u32 (of + 2))
    _ ← ensure_thumb
    yield of'

  -- Another directory, where there is one.
  unfoldable pub parse_ifd_at : ℕ → Parser W Unit
  parse_ifd_at zero = yield tt
  parse_ifd_at (suc offset) = do
    start ← get (λ c. c.exif_start)
    _ ← ensure_size (u32 (start + suc offset))
    _ ← exif_parse_ifd (u32 (start + suc offset))
    yield tt

  unfoldable pub exif_start_entries : ℕ → Parser W Unit
  exif_start_entries of = do
    order ← peek mem_be_u16 of
    version ← peek mem_u16 (u32 (of + 2))
    offset ← peek mem_u32 (u32 (of + 4))
    of1 ← look (λ c. skip_header (u32 (of + 8)) offset)
    of2 ← exif_parse_ifd of1
    ifd1 ← peek mem_u32 of2
    _ ← parse_ifd_at ifd1
    sub ← get (λ c. c.subifd)
    parse_ifd_at sub

  unfoldable pub exif_body : ℕ → Parser W Unit
  exif_body of = do _ ← modify (λ c. record c { exif_start = of }); exif_start_entries of

  -- `"Exif\0\0"` at the cursor.
  unfoldable pub exif_header : ℕ → Parser W Unit
  exif_header of = do
    is_exif ← peek (mem_equal (0x45 ∷ 0x78 ∷ 0x69 ∷ 0x66 ∷ 0 ∷ 0 ∷ [])) of
    if is_exif then exif_body (u32 (of + 6)) else fail

  -- Behind the start of the image; a JFIF segment is skipped.
  unfoldable pub exif_start : ℕ → Parser W Unit
  exif_start of = do
    type ← peek mem_be_u16 of
    len ← peek mem_be_u16 (u32 (of + 2))
    is_jfif ← peek (mem_equal (0x4a ∷ 0x46 ∷ 0x49 ∷ 0x46 ∷ [])) (u32 (of + 4))
    exif_header (if is_jfif then u32 (of + 4 + 0x12) else u32 (of + 4))

  unfoldable pub raf_offset : Parser W ℕ
  raf_offset = do header_len ← peek mem_be_u32 0x54; _ ← ensure_size header_len; yield header_len

  -- A raw file has `"FUJIFILMCCD-RAW"` in front, and says at 0x54 where its JPEG is.
  unfoldable pub raf_header : Parser W ℕ
  raf_header = do
    is_raf ←
        peek
          (mem_equal (
            0x46 ∷ 0x55 ∷ 0x4a ∷ 0x49 ∷ 0x46 ∷ 0x49 ∷ 0x4c ∷ 0x4d ∷ 0x43 ∷ 0x43 ∷ 0x44 ∷ 0x2d ∷ 0x52
            ∷ 0x41 ∷ 0x57 ∷ []))
          0
    if is_raf then raf_offset else yield 0

  unfoldable pub parse_marker : ℕ → Parser W Unit
  parse_marker of = do
    second ← peek byte_at (u32 (of + 1))
    if second == 0xd8 then exif_start (u32 (of + 2)) else yield tt

  -- The start of a JPEG image.
  unfoldable pub parse_jpeg : ℕ → ℕ → Parser W Unit
  parse_jpeg of first = if first == 0xff then parse_marker of else yield tt

  unfoldable pub parse_image : Parser W Unit
  parse_image = do
    _ ← ensure_size 100
    of ← raf_header
    first ← peek byte_at of
    parse_jpeg of first

  unfoldable pub exif_start_raw : Memory → ℕ → Option (GetMore W) → W → Answer W Unit
  exif_start_raw buf n get_more w = parse_image (record {
    world = w;
    buf = buf;
    length = n;
    exif_start = 0;
    get_more = get_more;
    subifd = 0;
    thumb_of = 0;
    thumb_size = 0;
  })
