-- ===== src/Fp/Xml/Props.antt =====
-- One property of an XML profile (fp/src/xml.c: `parse_prop`). The chain of `strcmp` tests on the name
-- is a table from names to tags, searched in the same order; what a branch does stands at its tag.
-- A missing value (NULL) is `none`.
use libfuji.Common.{
  ℕ, ◌-◌, ◌^◌, String, str_eq, Bool, ◌||◌, List, [], ◌∷◌, Option, none, some, u32, leb, ◌==◌,
  if◌then◌else◌, length,
}
use libfuji.Fp.Lookup.{FujiLookup, Status, success, failure, validate_lookup}
use libfuji.Fp.Profile.{FujiProfile, fp_get_highlight_tone, fp_get_shadow_tone}
use libfuji.Fp.Tables.{
  fp_bool, fp_chrome_effect, fp_clarity, fp_color_chrome_blue, fp_color_space, fp_color_temp,
  fp_exposure_bias, fp_file_type, fp_film_sim, fp_grain_effect, fp_grain_effect_size, fp_hdr,
  fp_image_quality, fp_image_size, fp_noise_reduction, fp_on_off, fp_range, fp_struct_ver,
  fp_white_balance_mode,
}
use libfuji.Fp.D185.Props.{store}
use libfuji.Fp.Xml.Strtoul.{strtoul, codes}

pub data XmlKey : Type 0 where
  serial_number : XmlKey
  editable : XmlKey
  iop_code : XmlKey
  struct_ver : XmlKey
  file_type : XmlKey
  image_size : XmlKey
  image_quality : XmlKey
  exposure_bias : XmlKey
  chrome_effect : XmlKey
  white_balance : XmlKey
  wb_color_temp : XmlKey
  wb_shift_r : XmlKey
  wb_shift_b : XmlKey
  highlight_tone : XmlKey
  shadow_tone : XmlKey
  color : XmlKey
  sharpness : XmlKey
  nois_reduction : XmlKey
  clarity : XmlKey
  tether_raw_conditon_code : XmlKey
  source_file_name : XmlKey
  fileerror : XmlKey
  shooting_condition : XmlKey
  film_simulation : XmlKey
  rotation_angle : XmlKey
  dynamic_range : XmlKey
  wide_d_range : XmlKey
  black_image_tone : XmlKey
  monochromatic_color_rg : XmlKey
  grain_effect : XmlKey
  grain_effect_size : XmlKey
  color_chrome_blue : XmlKey
  hdr : XmlKey
  smooth_skin_effect : XmlKey
  wb_shoot_cond : XmlKey
  lens_modulation_opt : XmlKey
  color_space : XmlKey
  digital_tele_conv : XmlKey
  portrait_enhancer : XmlKey

unfoldable pub xml_keys : List (String × XmlKey)
xml_keys =
    ("SerialNumber", XmlKey.serial_number)
    ∷ ("Editable", XmlKey.editable)
    ∷ ("IOPCode", XmlKey.iop_code)
    ∷ ("StructVer", XmlKey.struct_ver)
    ∷ ("FileType", XmlKey.file_type)
    ∷ ("ImageSize", XmlKey.image_size)
    ∷ ("ImageQuality", XmlKey.image_quality)
    ∷ ("ExposureBias", XmlKey.exposure_bias)
    ∷ ("ChromeEffect", XmlKey.chrome_effect)
    ∷ ("WhiteBalance", XmlKey.white_balance)
    ∷ ("WBColorTemp", XmlKey.wb_color_temp)
    ∷ ("WBShiftR", XmlKey.wb_shift_r)
    ∷ ("WBShiftB", XmlKey.wb_shift_b)
    ∷ ("HighlightTone", XmlKey.highlight_tone)
    ∷ ("ShadowTone", XmlKey.shadow_tone)
    ∷ ("Color", XmlKey.color)
    ∷ ("Sharpness", XmlKey.sharpness)
    ∷ ("NoisReduction", XmlKey.nois_reduction)
    ∷ ("Clarity", XmlKey.clarity)
    ∷ ("TetherRAWConditonCode", XmlKey.tether_raw_conditon_code)
    ∷ ("SourceFileName", XmlKey.source_file_name)
    ∷ ("Fileerror", XmlKey.fileerror)
    ∷ ("ShootingCondition", XmlKey.shooting_condition)
    ∷ ("FilmSimulation", XmlKey.film_simulation)
    ∷ ("RotationAngle", XmlKey.rotation_angle)
    ∷ ("DynamicRange", XmlKey.dynamic_range)
    ∷ ("WideDRange", XmlKey.wide_d_range)
    ∷ ("BlackImageTone", XmlKey.black_image_tone)
    ∷ ("MonochromaticColor_RG", XmlKey.monochromatic_color_rg)
    ∷ ("GrainEffect", XmlKey.grain_effect)
    ∷ ("GrainEffectSize", XmlKey.grain_effect_size)
    ∷ ("ColorChromeBlue", XmlKey.color_chrome_blue)
    ∷ ("HDR", XmlKey.hdr)
    ∷ ("SmoothSkinEffect", XmlKey.smooth_skin_effect)
    ∷ ("WBShootCond", XmlKey.wb_shoot_cond)
    ∷ ("LensModulationOpt", XmlKey.lens_modulation_opt)
    ∷ ("ColorSpace", XmlKey.color_space)
    ∷ ("DigitalTeleConv", XmlKey.digital_tele_conv)
    ∷ ("PortraitEnhancer", XmlKey.portrait_enhancer)
    ∷ []

unfoldable pub find_key : String → List (String × XmlKey) → Option XmlKey
find_key key [] = none
find_key key ((name, k) ∷ rest) = if str_eq key name then some k else find_key key rest

-- `validate_lookup` on a field; NULL is an error.
abbrev pub checked :
    FujiProfile → Option String → ℕ → List FujiLookup → (ℕ → FujiProfile) → FujiProfile × Status
checked fp none old tbl write = (fp, failure)
checked fp (some str) old tbl write = store (validate_lookup str old tbl) write

-- `(int)strtoul(value, NULL, 0)`, as a bit pattern; NULL is an error.
abbrev pub numeric : FujiProfile → Option String → (ℕ → FujiProfile × Status) → FujiProfile × Status
numeric fp none k = (fp, failure)
numeric fp (some str) k = k (u32 (strtoul str 0))

-- `val >= -10 && val <= 10` of such a pattern.
abbrev pub within_ten : ℕ → Bool
within_ten w = leb w 10 || leb (2 ^ 32 - 10) w

-- What both `WBShiftR` and `WBShiftB` do.
unfoldable pub parse_wb_shift : FujiProfile → Option String → FujiProfile × Status
parse_wb_shift fp value =
    numeric fp value
      (λ w. if within_ten w then (record fp { wb_shift_r = w }, success) else (fp, failure))

unfoldable pub parse_iop_code : FujiProfile → Option String → FujiProfile × Status
parse_iop_code fp none = (fp, failure)
parse_iop_code fp (some str) =
    if length (codes str) == 8
    then (record fp { iop_code = u32 (strtoul str 16) }, success)
    else (fp, failure)

-- The field is written before the value is looked at.
unfoldable pub parse_dynamic_range : FujiProfile → Option String → FujiProfile × Status
parse_dynamic_range fp value = numeric fp value (λ w.
    let fp' = record fp { dynamic_range = w } in
    if w == 100 || w == 200 || w == 400 then (fp', success) else (fp', failure))

unfoldable pub parse_tag : FujiProfile → XmlKey → Option String → FujiProfile × Status
unfolding parse_wb_shift parse_iop_code parse_dynamic_range
parse_tag fp XmlKey.serial_number value = (fp, success)
parse_tag fp XmlKey.editable value =
    checked fp value fp.editable fp_bool (λ v. record fp { editable = v })
parse_tag fp XmlKey.iop_code value = parse_iop_code fp value
parse_tag fp XmlKey.struct_ver value =
    checked fp value fp.struct_ver fp_struct_ver (λ v. record fp { struct_ver = v })
parse_tag fp XmlKey.file_type value =
    checked fp value fp.file_type fp_file_type (λ v. record fp { file_type = v })
parse_tag fp XmlKey.image_size value =
    checked fp value fp.image_size fp_image_size (λ v. record fp { image_size = v })
parse_tag fp XmlKey.image_quality value =
    checked fp value fp.image_quality fp_image_quality (λ v. record fp { image_quality = v })
parse_tag fp XmlKey.exposure_bias value =
    checked fp value fp.exposure_bias fp_exposure_bias (λ v. record fp { exposure_bias = v })
parse_tag fp XmlKey.chrome_effect value =
    checked fp value fp.chrome_effect fp_chrome_effect (λ v. record fp { chrome_effect = v })
parse_tag fp XmlKey.white_balance value =
    checked fp value fp.white_balance fp_white_balance_mode (λ v. record fp { white_balance = v })
parse_tag fp XmlKey.wb_color_temp value =
    checked fp value fp.wb_color_temp fp_color_temp (λ v. record fp { wb_color_temp = v })
parse_tag fp XmlKey.wb_shift_r value = parse_wb_shift fp value
parse_tag fp XmlKey.wb_shift_b value = parse_wb_shift fp value
parse_tag fp XmlKey.highlight_tone value =
    checked fp value fp.highlight_tone (fp_get_highlight_tone fp)
      (λ v. record fp { highlight_tone = v })
parse_tag fp XmlKey.shadow_tone value =
    checked fp value fp.shadow_tone (fp_get_shadow_tone fp) (λ v. record fp { shadow_tone = v })
parse_tag fp XmlKey.color value = checked fp value fp.color fp_range (λ v. record fp { color = v })
parse_tag fp XmlKey.sharpness value =
    checked fp value fp.sharpness fp_range (λ v. record fp { sharpness = v })
parse_tag fp XmlKey.nois_reduction value =
    checked fp value fp.nois_reduction fp_noise_reduction (λ v. record fp { nois_reduction = v })
parse_tag fp XmlKey.clarity value =
    checked fp value fp.clarity fp_clarity (λ v. record fp { clarity = v })
parse_tag fp XmlKey.tether_raw_conditon_code value = (fp, success)
parse_tag fp XmlKey.source_file_name value = (fp, success)
parse_tag fp XmlKey.fileerror value = (fp, success)
parse_tag fp XmlKey.shooting_condition value = (fp, success)
parse_tag fp XmlKey.film_simulation value =
    checked fp value fp.film_simulation fp_film_sim (λ v. record fp { film_simulation = v })
parse_tag fp XmlKey.rotation_angle value =
    numeric fp value (λ w. (record fp { rotation_angle = w }, success))
parse_tag fp XmlKey.dynamic_range value = parse_dynamic_range fp value
parse_tag fp XmlKey.wide_d_range value =
    numeric fp value
      (λ w. if leb w 100 then (record fp { wide_d_range = w }, success) else (fp, failure))
parse_tag fp XmlKey.black_image_tone value =
    numeric fp value (λ w. (record fp { black_image_tone = w }, success))
parse_tag fp XmlKey.monochromatic_color_rg value =
    numeric fp value (λ w. (record fp { monochromatic_color_rg = w }, success))
parse_tag fp XmlKey.grain_effect value =
    checked fp value fp.grain_effect fp_grain_effect (λ v. record fp { grain_effect = v })
parse_tag fp XmlKey.grain_effect_size value =
    checked fp value fp.grain_effect_size fp_grain_effect_size
      (λ v. record fp { grain_effect_size = v })
parse_tag fp XmlKey.color_chrome_blue none = (record fp { color_chrome_blue = 0 }, success)
parse_tag fp XmlKey.color_chrome_blue (some str) =
    checked fp (some str) fp.color_chrome_blue fp_color_chrome_blue
      (λ v. record fp { color_chrome_blue = v })
parse_tag fp XmlKey.hdr none = (record fp { hdr = 0 }, success)
parse_tag fp XmlKey.hdr (some str) =
    checked fp (some str) fp.hdr fp_hdr (λ v. record fp { hdr = v })
parse_tag fp XmlKey.smooth_skin_effect none = (record fp { smooth_skin_effect = 1 }, success)
parse_tag fp XmlKey.smooth_skin_effect (some str) =
    checked fp (some str) fp.wb_shoot_cond fp_on_off (λ v. record fp { wb_shoot_cond = v })
parse_tag fp XmlKey.wb_shoot_cond value =
    checked fp value fp.wb_shoot_cond fp_on_off (λ v. record fp { wb_shoot_cond = v })
parse_tag fp XmlKey.lens_modulation_opt value =
    checked fp value fp.wb_shoot_cond fp_on_off (λ v. record fp { wb_shoot_cond = v })
parse_tag fp XmlKey.color_space value =
    checked fp value fp.color_space fp_color_space (λ v. record fp { color_space = v })
parse_tag fp XmlKey.digital_tele_conv none = (record fp { digital_tele_conv = 1 }, success)
parse_tag fp XmlKey.digital_tele_conv (some str) =
    checked fp (some str) fp.digital_tele_conv fp_on_off (λ v. record fp { digital_tele_conv = v })
parse_tag fp XmlKey.portrait_enhancer none = (record fp { portrait_enhancer = 1 }, success)
parse_tag fp XmlKey.portrait_enhancer (some str) = (fp, success)

-- A name that no test knows is an error.
unfoldable pub parse_prop : FujiProfile → String → Option String → FujiProfile × Status
unfolding parse_tag find_key xml_keys
parse_prop fp key value = elim (find_key key xml_keys) [
  | none ↦ (fp, failure)
  | some tag ↦ parse_tag fp tag value
]
