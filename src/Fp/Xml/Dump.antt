-- ===== src/Fp/Xml/Dump.antt =====
-- The dump of a profile as text (fp/src/xml.c: `dump_property`, `fp_dump_struct`). A printed line is
-- its label and the text between the tags. `print_d` and `print_04x` are what the C library's printf
-- makes of a value under `%d` and `%04X`.
use libfuji.Common.{
  ℕ, String, str_eq, Bool, true, false, not, ◌&&◌, List, [], ◌∷◌, ◌++◌, Option, none, some, ◌==◌,
  if◌then◌else◌,
}
use libfuji.Fp.Lookup.{FujiLookup, Status, success, failure, ◌or_status◌, has_value}
use libfuji.Fp.Profile.{FujiProfile, fp_get_highlight_tone, fp_get_shadow_tone}
use libfuji.Fp.Tables.{
  fp_bool, fp_chrome_effect, fp_clarity, fp_color_chrome_blue, fp_color_space, fp_color_temp,
  fp_drange, fp_drange_priority, fp_exposure_bias, fp_file_type, fp_film_sim, fp_grain_effect,
  fp_grain_effect_size, fp_hdr, fp_image_quality, fp_image_size, fp_lens_modulation,
  fp_noise_reduction, fp_on_off, fp_range, fp_range_mono_green_magenta,
  fp_range_mono_shift_warm_cold, fp_range_wb_shift, fp_struct_ver, fp_white_balance_mode,
  fp_white_balance_shoot_cond,
}

pub record DumpLine : Type 0 where
  pub label : String
  pub text : String

abbrev pub line : String → String → DumpLine
line l t = record { label = l; text = t }

-- The loop over the table.
unfoldable pub dump_key : String → ℕ → List FujiLookup → List DumpLine × Status
dump_key label value [] = ([], failure)
dump_key label value (r ∷ tbl) =
    if r.value == value then (line label r.key ∷ [], success) else dump_key label value tbl

unfoldable pub dump_property :
    (ℕ → String) → String → ℕ → Option (List FujiLookup) → List DumpLine × Status
unfolding dump_key
dump_property print_d label value none = (line label (print_d value) ∷ [], success)
dump_property print_d label value (some tbl) = dump_key label value tbl

-- The arguments of the calls of `dump_property`, in their order.
pub record DumpCall : Type 0 where
  pub label : String
  pub value : ℕ
  pub tbl : Option (List FujiLookup)

abbrev pub call : String → ℕ → Option (List FujiLookup) → DumpCall
call l v t = record { label = l; value = v; tbl = t }

unfoldable pub dump_calls : FujiProfile → List DumpCall
dump_calls fp =
    call "StructVer" fp.struct_ver (some fp_struct_ver)
    ∷ call "IOPCode" fp.iop_code none
    ∷ call "TetherRAWConditonCode" fp.tether_raw_conditon_code none
    ∷ call "Editable" fp.editable (some fp_bool)
    ∷ call "ShootingCondition" fp.shooting_condition none
    ∷ call "FileType" fp.file_type (some fp_file_type)
    ∷ call "ImageSize" fp.image_size (some fp_image_size)
    ∷ call "RotationAngle" fp.rotation_angle none
    ∷ call "ImageQuality" fp.image_quality (some fp_image_quality)
    ∷ call "ExposureBias" fp.exposure_bias (some fp_exposure_bias)
    ∷ call "DynamicRange" fp.dynamic_range (some fp_drange)
    ∷ call "WideDRange" fp.wide_d_range (some fp_drange_priority)
    ∷ call "FilmSimulation" fp.film_simulation (some fp_film_sim)
    ∷ call "BlackImageTone" fp.black_image_tone (some fp_range_mono_shift_warm_cold)
    ∷ call "MonochromaticColor_RG" fp.monochromatic_color_rg (some fp_range_mono_green_magenta)
    ∷ call "GrainEffect" fp.grain_effect (some fp_grain_effect)
    ∷ call "GrainEffectSize" fp.grain_effect_size (some fp_grain_effect_size)
    ∷ call "ChromeEffect" fp.chrome_effect (some fp_chrome_effect)
    ∷ call "ColorChromeBlue" fp.color_chrome_blue (some fp_color_chrome_blue)
    ∷ call "SmoothSkinEffect" fp.smooth_skin_effect (some fp_on_off)
    ∷ call "WBShootCond" fp.wb_shoot_cond (some fp_white_balance_shoot_cond)
    ∷ call "WhiteBalance" fp.white_balance (some fp_white_balance_mode)
    ∷ call "WBShiftR" fp.wb_shift_r (some fp_range_wb_shift)
    ∷ call "WBShiftB" fp.wb_shift_b (some fp_range_wb_shift)
    ∷ call "WBColorTemp" fp.wb_color_temp (some fp_color_temp)
    ∷ call "HighlightTone" fp.highlight_tone (some (fp_get_highlight_tone fp))
    ∷ call "ShadowTone" fp.shadow_tone (some (fp_get_shadow_tone fp))
    ∷ call "Color" fp.color (some fp_range)
    ∷ call "Sharpness" fp.sharpness (some fp_range)
    ∷ call "NoisReduction" fp.nois_reduction (some fp_noise_reduction)
    ∷ call "Clarity" fp.clarity (some fp_clarity)
    ∷ call "LensModulationOpt" fp.lens_modulation_opt (some fp_lens_modulation)
    ∷ call "ColorSpace" fp.color_space (some fp_color_space)
    ∷ call "HDR" fp.hdr (some fp_hdr)
    ∷ call "DigitalTeleConv" fp.digital_tele_conv (some fp_on_off)
    ∷ call "PortraitEnhancer" fp.portrait_enhancer (some fp_on_off)
    ∷ []

-- `rc |= dump_property(…)`, call after call: an error does not stop the ones that follow.
unfoldable pub dump_all : (ℕ → String) → List DumpCall → Status → List DumpLine × Status
dump_all print_d [] rc = ([], rc)
dump_all print_d (c ∷ cs) rc =
    let (out, rc') = dump_property print_d c.label c.value c.tbl in
    let (rest, rc'') = dump_all print_d cs (rc or_status rc') in (out ++ rest, rc'')

unfoldable pub fp_dump_struct : (ℕ → String) → (ℕ → String) → FujiProfile → List DumpLine × Status
unfolding dump_calls
fp_dump_struct print_d print_04x fp =
    let (rest, rc) = dump_all print_d (dump_calls fp) success in
    (line "IOPCode" (print_04x fp.iop_code) ∷ rest, rc)

-- Can a call of `dump_property` print its value?
unfoldable pub is_dumpable : DumpCall → Bool
is_dumpable c = elim c.tbl [ none ↦ true | some tbl ↦ has_value c.value tbl ]

unfoldable pub all_dumpable : List DumpCall → Bool
all_dumpable [] = true
all_dumpable (c ∷ cs) = is_dumpable c && all_dumpable cs

unfoldable pub has_key : String → List FujiLookup → Bool
has_key k [] = false
has_key k (r ∷ tbl) = if str_eq k r.key then true else has_key k tbl

unfoldable pub has_distinct_keys : List FujiLookup → Bool
has_distinct_keys [] = true
has_distinct_keys (r ∷ tbl) = not (has_key r.key tbl) && has_distinct_keys tbl
