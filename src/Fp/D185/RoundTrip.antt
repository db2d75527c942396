-- ===== src/Fp/D185/RoundTrip.antt =====
-- `fp_create_d185` and `fp_parse_d185` together.
use libfuji.Common.{
  ℕ, suc, ◌+◌, ◌*◌, ◌^◌, ◌<◌, ◌≤◌, ◌≡◌, refl, ap, ◌∙◌, sym, subst, List, [], ◌∷◌, ◌++◌, some, none,
  append_assoc, length, length-append, replicate, get_elem?, at-append, le16, le32, arith, le→ltb,
  read_u16, read_u8, read_u32-append,
}
use libfuji.Fp.Lookup.{success}
use libfuji.Fp.Profile.{FujiProfile, zeroed}
use libfuji.Fp.D185.Props.{D185Prop, all_props}
use libfuji.Fp.D185.Codec.{
  next_value, parse_index, parse_props, parse_iop, fp_create_d185, fp_parse_d185,
}
use libfuji.Fp.D185.Packable.{IsPackable, packed, fill}
use libfuji.Fp.D185.Values.{parse_prop-packed, packed-lt}
use libfuji.Fp.D185.Iop.{digits_of, digits_of-IsDigits, gather-digits_of, parse_iop-gather}
use libfuji.Fp.D185.Create.{
  packed_bytes, length-packed_bytes, header, iop_chars, prefix_of, length-prefix_of, create-prefix,
  write_props_room, write_props_full,
}

-- What survives of a profile: its processor code and the fields of the 29 properties.
abbrev pub image : FujiProfile → FujiProfile
image fp = record zeroed {
  struct_ver = 0x10000;
  iop_code = fp.iop_code;
  shooting_condition = fp.shooting_condition;
  file_type = fp.file_type;
  image_size = fp.image_size;
  image_quality = fp.image_quality;
  exposure_bias = fp.exposure_bias;
  dynamic_range = fp.dynamic_range;
  wide_d_range = fp.wide_d_range;
  film_simulation = fp.film_simulation;
  grain_effect = fp.grain_effect;
  grain_effect_size = fp.grain_effect_size;
  chrome_effect = fp.chrome_effect;
  wb_shoot_cond = fp.wb_shoot_cond;
  white_balance = fp.white_balance;
  wb_shift_r = fp.wb_shift_r;
  wb_shift_b = fp.wb_shift_b;
  wb_color_temp = fp.wb_color_temp;
  highlight_tone = fp.highlight_tone;
  shadow_tone = fp.shadow_tone;
  color = fp.color;
  sharpness = fp.sharpness;
  nois_reduction = fp.nois_reduction;
  lens_modulation_opt = fp.lens_modulation_opt;
  color_space = fp.color_space;
  black_image_tone = fp.black_image_tone;
  color_chrome_blue = fp.color_chrome_blue;
  monochromatic_color_rg = fp.monochromatic_color_rg;
  clarity = fp.clarity;
}

fills : FujiProfile → List D185Prop → FujiProfile → FujiProfile
fills fp [] to = to
fills fp (p ∷ ps) to = fills fp ps (fill fp p to)

fill-iop_code : (fp to : FujiProfile) (p : D185Prop) → (fill fp p to).iop_code ≡ to.iop_code
unfolding fill
fill-iop_code fp to D185Prop.shooting_condition = refl
fill-iop_code fp to D185Prop.file_type = refl
fill-iop_code fp to D185Prop.image_size = refl
fill-iop_code fp to D185Prop.image_quality = refl
fill-iop_code fp to D185Prop.exposure_bias = refl
fill-iop_code fp to D185Prop.dynamic_range = refl
fill-iop_code fp to D185Prop.wide_d_range = refl
fill-iop_code fp to D185Prop.film_simulation = refl
fill-iop_code fp to D185Prop.grain_effect_and_size = refl
fill-iop_code fp to D185Prop.chrome_effect = refl
fill-iop_code fp to D185Prop.white_balance_shoot_cond = refl
fill-iop_code fp to D185Prop.white_balance_mode = refl
fill-iop_code fp to D185Prop.white_balance_shift_red_green = refl
fill-iop_code fp to D185Prop.white_balance_shift_blue_yellow = refl
fill-iop_code fp to D185Prop.white_balance_color_temp = refl
fill-iop_code fp to D185Prop.highlight_tone = refl
fill-iop_code fp to D185Prop.shadow_tone = refl
fill-iop_code fp to D185Prop.color = refl
fill-iop_code fp to D185Prop.sharpness = refl
fill-iop_code fp to D185Prop.noise_reduction = refl
fill-iop_code fp to D185Prop.lens_modulation_optimization = refl
fill-iop_code fp to D185Prop.color_space = refl
fill-iop_code fp to D185Prop.black_image_tone = refl
fill-iop_code fp to D185Prop.unknown_24 = refl
fill-iop_code fp to D185Prop.color_chrome_blue = refl
fill-iop_code fp to D185Prop.monochromatic_color_rg = refl
fill-iop_code fp to D185Prop.clarity = refl
fill-iop_code fp to D185Prop.unknown_28 = refl
fill-iop_code fp to D185Prop.unknown_29 = refl

fills-all_props :
    (fp : FujiProfile)
    → fills fp all_props (record zeroed { struct_ver = 0x10000; iop_code = fp.iop_code }) ≡ image fp
unfolding fills fill
fills-all_props fp = refl

parse_props-step :
    (bin : List ℕ) (len left i of value : ℕ) (to to' : FujiProfile)
    → next_value bin len of ≡ some (value, of + 4)
    → parse_index to i value ≡ (to', success)
    → parse_props bin len (suc left) i of to ≡ parse_props bin len left (i + 1) (of + 4) to'
unfolding parse_props
parse_props-step bin len left i of value to to' r q = ground (arith, r, q)

next_value-append :
    (pre post : List ℕ) (v len of : ℕ)
    → v < 2 ^ 32
    → of ≡ length pre
    → of + 4 ≤ len
    → next_value (pre ++ (le32 v ++ post)) len of ≡ some (v, of + 4)
unfolding next_value
next_value-append pre post v len of h e b =
    rw (le→ltb len (of + 4) b, read_u32-append pre post v of h e)

parse_index-packed :
    (fp to : FujiProfile) (front ps : List D185Prop) (p : D185Prop) (i : ℕ)
    → IsPackable fp
    → to.iop_code ≡ fp.iop_code
    → front ++ p ∷ ps ≡ all_props
    → i ≡ length front
    → parse_index to i (packed fp p) ≡ (fill fp p to, success)
unfolding parse_index
parse_index-packed fp to front ps p i v e f g =
    let at : get_elem? (front ++ p ∷ ps) i ≡ some p =
      at-append front (p ∷ ps) i i 0 g (omega arith) in
    let at' : get_elem? all_props i ≡ some p =
      subst (λ (l : List D185Prop). get_elem? l i ≡ some p) f at in
    rw (at', parse_index) (parse_prop-packed fp to v e p)

-- The properties that stand at the cursor, up to the end of the buffer, are read into their fields.
parse_props-fills :
    (fp : FujiProfile) (v : IsPackable fp) (ps front : List D185Prop) (pre : List ℕ) (len i of : ℕ)
    (to : FujiProfile)
    → to.iop_code ≡ fp.iop_code
    → front ++ ps ≡ all_props
    → i ≡ length front
    → of ≡ length pre
    → of + 4 * length ps ≤ len
    → parse_props (pre ++ packed_bytes fp ps) len (length ps) i of to
      ≡ some (fills fp ps to, success)
unfolding parse_props fills
parse_props-fills fp v [] front pre len i of to e f g h b = refl
parse_props-fills fp v (p ∷ ps) front pre len i of to e f g h b =
    parse_props-step _ len (length ps) i of (packed fp p) to (fill fp p to)
      (next_value-append pre (packed_bytes fp ps) (packed fp p) len of (packed-lt fp v p) h
        (omega arith))
      (parse_index-packed fp to front ps p i v e f g)
    ∙ ap (λ (bin : List ℕ). parse_props bin len (length ps) (i + 1) (of + 4) (fill fp p to))
        (sym (append_assoc pre (le32 (packed fp p)) (packed_bytes fp ps)))
    ∙ parse_props-fills fp v ps (front ++ p ∷ []) (pre ++ le32 (packed fp p)) len (i + 1) (of + 4)
        (fill fp p to) (fill-iop_code fp to p ∙ e) (append_assoc front (p ∷ []) ps ∙ f)
        (omega (arith, length-append front (p ∷ [])))
        (omega (arith, length-append pre (le32 (packed fp p)))) (omega arith)

-- The bytes that a packable profile is written as.
pub encoded : FujiProfile → List ℕ
encoded fp = prefix_of fp ++ packed_bytes fp all_props

encoded_parts :
    (fp : FujiProfile)
    → encoded fp
      ≡ header ++ (iop_chars fp ++ (le16 0 ++ (replicate 0x1ec 0 ++ packed_bytes fp all_props)))
unfolding encoded
encoded_parts fp = refl

encoded_header :
    (fp : FujiProfile) → (read_u16 (encoded fp) 0 ≡ some 29) × (read_u8 (encoded fp) 2 ≡ some 9)
unfolding encoded read_u16 read_u8
encoded_header fp = (refl, refl)

encoded-iop :
    (fp : FujiProfile)
    → fp.iop_code < 2 ^ 32
    → parse_iop (encoded fp) 9 0 3 0 ≡ some (fp.iop_code, success)
encoded-iop fp h = rw encoded_parts (
    parse_iop-gather (digits_of fp.iop_code) header (replicate 0x1ec 0 ++ packed_bytes fp all_props)
      0 3 0 (digits_of-IsDigits fp.iop_code) (omega arith) refl
    ∙ ap (λ (c : ℕ). some (c, success)) (gather-digits_of fp.iop_code h))

parse-encoded :
    (fp old : FujiProfile)
    → IsPackable fp
    → fp.iop_code < 2 ^ 32
    → fp_parse_d185 (encoded fp) 629 old ≡ some (image fp, success)
unfolding fp_parse_d185
parse-encoded fp old v h =
    rw ((encoded_header fp).0, (encoded_header fp).1, encoded-iop fp h)
      (unfold encoded in
        parse_props-fills fp v all_props [] (prefix_of fp) 629 0 0x201
          (record zeroed { struct_ver = 0x10000; iop_code = fp.iop_code }) refl refl refl
          (sym (length-prefix_of fp)) (omega arith)
        ∙ ap (λ (r : FujiProfile). some (r, success)) (fills-all_props fp))

-- In a buffer of at least 629 bytes a packable profile with a 32-bit processor code is written
-- without a fault, in exactly 629 bytes, whatever the uninitialised variables hold; parsing these bytes succeeds and gives back
-- the processor code and every field that the format has.
pub parse-create_d185 :
    (fp old : FujiProfile) (junk : D185Prop → ℕ) (junk_size len : ℕ)
    → IsPackable fp
    → fp.iop_code < 2 ^ 32
    → 629 ≤ len
    → (bin : List ℕ) × (fp_create_d185 fp junk junk_size len ≡ some (bin, success))
      × (length bin ≡ 629)
      × (fp_parse_d185 bin 629 old ≡ some (image fp, success))
parse-create_d185 fp old junk junk_size len v h b = (
  encoded fp,
  create-prefix fp junk junk_size len (omega arith)
      ∙ unfold encoded in
        write_props_room fp v junk junk_size len all_props (prefix_of fp)
          (omega (arith, length-prefix_of fp)),
  unfold encoded in
      omega (
        arith,
        length-append (prefix_of fp) (packed_bytes fp all_props),
        length-prefix_of fp,
        length-packed_bytes fp all_props,
      ),
  parse-encoded fp old v h,
)

-- The size check lets a buffer of 628 bytes through, and the write of the last property then runs
-- one byte over its end.
pub create_d185_overflow :
    (fp : FujiProfile) (junk : D185Prop → ℕ) (junk_size : ℕ)
    → IsPackable fp
    → fp_create_d185 fp junk junk_size 628 ≡ none
create_d185_overflow fp junk junk_size v =
    create-prefix fp junk junk_size 628 (omega arith)
    ∙ write_props_full fp v junk junk_size 628 D185Prop.shooting_condition _ (prefix_of fp)
        (omega (arith, length-prefix_of fp))
