-- ===== src/Fp/D185/Create.antt =====
-- What `fp_create_d185` writes for a packable profile, and how many bytes it needs.
use libfuji.Common.{
  ℕ, ◌+◌, ◌*◌, ◌≤◌, ◌≡◌, ap, sym, List, [], ◌∷◌, ◌++◌, map, some, none, append_assoc, append-nil,
  length, length-append, replicate, length-replicate, le16, le32, arith, le→ltb,
}
use libfuji.Fp.Lookup.{success}
use libfuji.Fp.Profile.{FujiProfile}
use libfuji.Fp.D185.Props.{D185Prop, all_props}
use libfuji.Fp.D185.Codec.{hex_digit, write_props, fp_create_d185}
use libfuji.Fp.D185.Packable.{IsPackable, packed}
use libfuji.Fp.D185.Values.{get_prop-packed}
use libfuji.Fp.D185.Writer.{
  wide, write_u8_room, write_u16_room, write_u32_room, write_u32_full, write_chars_room,
  write_padding_room,
}
use libfuji.Fp.D185.Iop.{digits_of, print_08x-digits}

-- The bytes of some properties.
abbrev pub packed_bytes : FujiProfile → List D185Prop → List ℕ
packed_bytes fp [] = []
packed_bytes fp (p ∷ ps) = le32 (packed fp p) ++ packed_bytes fp ps

pub length-packed_bytes :
    (fp : FujiProfile) (ps : List D185Prop) → length (packed_bytes fp ps) ≡ 4 * length ps
length-packed_bytes fp [] = omega arith
length-packed_bytes fp (p ∷ ps) = omega (arith, length-packed_bytes fp ps)

module _ (fp : FujiProfile) (v : IsPackable fp) (junk : D185Prop → ℕ) (junk_size : ℕ)
    (len : ℕ) where
  pub write_props_room :
      (ps : List D185Prop) (out : List ℕ)
      → length out + 4 * length ps ≤ len
      → write_props fp junk junk_size len out ps ≡ some (out ++ packed_bytes fp ps, success)
  unfolding write_props
  write_props_room [] out h = ap (λ (o : List ℕ). some (o, success)) (sym (append-nil out))
  write_props_room (p ∷ ps) out h = ground (
    arith,
    get_prop-packed fp v p (junk p) junk_size,
    write_u32_room len out (packed fp p) (omega arith),
    write_props_room ps (out ++ le32 (packed fp p))
        (omega (arith, length-append out (le32 (packed fp p)))),
    append_assoc out (le32 (packed fp p)) (packed_bytes fp ps),
  )

  -- One byte short, the last property runs over the end of the buffer.
  pub write_props_full :
      (p : D185Prop) (ps : List D185Prop) (out : List ℕ)
      → length out + 4 * length (p ∷ ps) ≡ len + 1
      → write_props fp junk junk_size len out (p ∷ ps) ≡ none
  unfolding write_props
  write_props_full p [] out h = ground (
    arith,
    get_prop-packed fp v p (junk p) junk_size,
    write_u32_full len out (packed fp p) (omega arith),
  )
  write_props_full p (q ∷ ps) out h = ground (
    arith,
    get_prop-packed fp v p (junk p) junk_size,
    write_u32_room len out (packed fp p) (omega arith),
    write_props_full q ps (out ++ le32 (packed fp p))
        (omega (arith, length-append out (le32 (packed fp p)))),
  )

-- The part before the code's characters, up to the padding, and up to the properties.
abbrev pub header : List ℕ
header = le16 0x1d ++ 9 ∷ []

abbrev pub iop_chars : FujiProfile → List ℕ
iop_chars fp = wide (map hex_digit (digits_of fp.iop_code))

abbrev pub prefix_of : FujiProfile → List ℕ
prefix_of fp = ((header ++ iop_chars fp) ++ le16 0) ++ replicate 0x1ec 0

pub length-prefix_of : (fp : FujiProfile) → length (prefix_of fp) ≡ 0x201
length-prefix_of fp = omega (
  arith,
  length-append ((header ++ iop_chars fp) ++ le16 0) (replicate 0x1ec 0),
  length-replicate 0x1ec (let z : ℕ = 0 in z),
)

-- The steps before the properties.
pub create-prefix :
    (fp : FujiProfile) (junk : D185Prop → ℕ) (junk_size len : ℕ)
    → 0x274 ≤ len
    → fp_create_d185 fp junk junk_size len
      ≡ write_props fp junk junk_size len (prefix_of fp) all_props
unfolding fp_create_d185
create-prefix fp junk junk_size len h = rw (
  le→ltb len 0x274 h,
  print_08x-digits fp.iop_code,
  write_u16_room len [] 0x1d (omega arith),
  write_u8_room len (le16 0x1d) 9 (omega arith) (omega arith),
  write_chars_room len header (map hex_digit (digits_of fp.iop_code)) (omega arith),
  write_u16_room len (header ++ iop_chars fp) 0x0 (omega arith),
  write_padding_room 0x202 len ((header ++ iop_chars fp) ++ le16 0) 0x1ec (omega arith)
      (omega arith) (omega arith),
)
