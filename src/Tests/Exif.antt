-- ===== src/Tests/Exif.antt =====
-- A small image with a thumbnail of ten bytes.
use libfuji.Common.{
  ℕ, zero, suc, ◌+◌, ◌*◌, ◌≤◌, ◌≡◌, refl, List, [], ◌∷◌, none, some, length, arith,
}
use libfuji.Exif.State.{
  ExifParser, memory, mem_u16, mem_be_u16, mem_u32, mem_be_u32, mem_equal, yield, fail, ◌>>=◌, look,
  get, modify,
}
use libfuji.Exif.{
  ensure_size, peek, note_entry, parse_entries, ensure_thumb, exif_parse_ifd, parse_ifd_at,
  skip_header, exif_start_entries, exif_body, exif_header, exif_start, raf_header, parse_marker,
  parse_jpeg, parse_image, exif_start_raw,
}
use libfuji.Exif.Sound.{IsFilled}
use libfuji.Exif.Bounds.{exif_start_raw-thumb}
use libfuji.Exif.Entries.{entries_at, last_entry, from_start, parse_entries-last_entry}

abbrev image : List ℕ
image =
    255 ∷ 216 ∷ 255 ∷ 225 ∷ 0 ∷ 64 ∷ 69 ∷ 120 ∷ 105 ∷ 102 ∷ 0 ∷ 0 ∷ 73 ∷ 73 ∷ 42 ∷ 0 ∷ 8 ∷ 0 ∷ 0 ∷ 0
    ∷ 2 ∷ 0 ∷ 1 ∷ 2 ∷ 4 ∷ 0 ∷ 1 ∷ 0 ∷ 0 ∷ 0 ∷ 88 ∷ 0 ∷ 0 ∷ 0 ∷ 2 ∷ 2 ∷ 4 ∷ 0 ∷ 1 ∷ 0 ∷ 0 ∷ 0 ∷ 10
    ∷ 0 ∷ 0 ∷ 0 ∷ 0 ∷ 0 ∷ 0 ∷ 0 ∷ 0 ∷ 0 ∷ 0 ∷ 0 ∷ 0 ∷ 0 ∷ 0 ∷ 0 ∷ 0 ∷ 0 ∷ 0 ∷ 0 ∷ 0 ∷ 0 ∷ 0 ∷ 0 ∷ 0
    ∷ 0 ∷ 0 ∷ 0 ∷ 0 ∷ 0 ∷ 0 ∷ 0 ∷ 0 ∷ 0 ∷ 0 ∷ 0 ∷ 0 ∷ 0 ∷ 0 ∷ 0 ∷ 0 ∷ 0 ∷ 0 ∷ 0 ∷ 0 ∷ 0 ∷ 0 ∷ 0 ∷ 0
    ∷ 0 ∷ 0 ∷ 0 ∷ 0 ∷ 0 ∷ 0 ∷ 0 ∷ 0 ∷ 0 ∷ 1 ∷ 2 ∷ 3 ∷ 4 ∷ 5 ∷ 6 ∷ 7 ∷ 8 ∷ 9 ∷ 10 ∷ 0 ∷ 0 ∷ 0 ∷ 0 ∷ 0
    ∷ 0 ∷ 0 ∷ 0 ∷ 0 ∷ 0 ∷ []

memory-IsFilled : (xs : List ℕ) → IsFilled (length xs) (memory xs)
unfolding memory
memory-IsFilled [] i l = absurd (omega arith)
memory-IsFilled (x ∷ xs) zero l = (x, refl)
memory-IsFilled (x ∷ xs) (suc i) l = memory-IsFilled xs i (omega arith)

abbrev bare : ExifParser ℕ
bare = record {
  world = 0;
  buf = memory image;
  length = 120;
  exif_start = 12;
  get_more = none;
  subifd = 0;
  thumb_of = 0;
  thumb_size = 0;
}

abbrev found : ExifParser ℕ
found = record bare { thumb_of = 100; thumb_size = 10 }

is_found : exif_start_raw (memory image) 120 none 0 ≡ some (found, some tt)
unfolding exif_start_raw parse_image parse_jpeg parse_marker raf_header exif_start exif_header
    exif_body exif_start_entries skip_header parse_ifd_at exif_parse_ifd ensure_thumb parse_entries
    note_entry peek ensure_size memory mem_u16 mem_be_u16 mem_u32 mem_be_u32 mem_equal yield fail
    ◌>>=◌ look get modify
is_found = refl

exif_start_raw-thumb_example : (110 ≤ 120) × ((v : ℕ) × (memory image 109 ≡ some v))
exif_start_raw-thumb_example =
    exif_start_raw-thumb (memory image) 120 none 0 found 9 (memory-IsFilled image) tt is_found
      (λ e. ground (arith, e)) (omega arith) (omega arith)

parse_entries-last_entry_example :
    (es : List (ℕ × ℕ)) × (d : ExifParser ℕ) × (entries_at (memory image) 2 22 ≡ some es)
    × (parse_entries 2 22 bare ≡ some (d, some (22 + 12 * 2)))
    × (d.thumb_size ≡ last_entry 0x0202 es 0)
    × (d.thumb_of ≡ last_entry 0x0201 (from_start 12 es) 0)
    × (d.subifd ≡ last_entry 0x8769 es 0)
parse_entries-last_entry_example =
    parse_entries-last_entry 2 22 bare (memory-IsFilled image) (omega arith) (omega arith)
