-- ===== src/Fp/Profile.antt =====
-- `struct FujiProfile` (fp/src/fp.h) and what fp/src/data.c does with a whole profile. A `uint32_t`
-- field is a number below 2 ^ 32; a `char` array is the text it holds.
use Prim.Native.Nat.{bit_and}
use libfuji.Common.{ℕ, String, List, Bool, ◌==◌, if◌then◌else◌}
use libfuji.Fp.Lookup.{FujiLookup}
use libfuji.Fp.Tables.{fp_range_p4_n4_halfs, fp_range_p4_n2}

pub record FujiProfile : Type 0 where
  pub profile_version : ℕ
  pub prop_group_device : String
  pub prop_group_version : String
  pub serial_number : String
  pub struct_ver : ℕ
  pub iop_code : ℕ
  pub tether_raw_conditon_code : ℕ
  pub editable : ℕ
  pub shooting_condition : ℕ
  pub file_type : ℕ
  pub image_size : ℕ
  pub rotation_angle : ℕ
  pub image_quality : ℕ
  pub exposure_bias : ℕ
  pub dynamic_range : ℕ
  pub wide_d_range : ℕ
  pub film_simulation : ℕ
  pub black_image_tone : ℕ
  pub monochromatic_color_rg : ℕ
  pub grain_effect : ℕ
  pub grain_effect_size : ℕ
  pub chrome_effect : ℕ
  pub color_chrome_blue : ℕ
  pub smooth_skin_effect : ℕ
  pub wb_shoot_cond : ℕ
  pub white_balance : ℕ
  pub wb_shift_r : ℕ
  pub wb_shift_b : ℕ
  pub wb_color_temp : ℕ
  pub highlight_tone : ℕ
  pub shadow_tone : ℕ
  pub color : ℕ
  pub sharpness : ℕ
  pub nois_reduction : ℕ
  pub clarity : ℕ
  pub lens_modulation_opt : ℕ
  pub color_space : ℕ
  pub hdr : ℕ
  pub digital_tele_conv : ℕ
  pub portrait_enhancer : ℕ
  pub rejected_value_black_image_tone : ℕ

-- `memset(fp, 0, sizeof(struct FujiProfile))`.
abbrev pub zeroed : FujiProfile
zeroed = record {
  profile_version = 0;
  prop_group_device = "";
  prop_group_version = "";
  serial_number = "";
  struct_ver = 0;
  iop_code = 0;
  tether_raw_conditon_code = 0;
  editable = 0;
  shooting_condition = 0;
  file_type = 0;
  image_size = 0;
  rotation_angle = 0;
  image_quality = 0;
  exposure_bias = 0;
  dynamic_range = 0;
  wide_d_range = 0;
  film_simulation = 0;
  black_image_tone = 0;
  monochromatic_color_rg = 0;
  grain_effect = 0;
  grain_effect_size = 0;
  chrome_effect = 0;
  color_chrome_blue = 0;
  smooth_skin_effect = 0;
  wb_shoot_cond = 0;
  white_balance = 0;
  wb_shift_r = 0;
  wb_shift_b = 0;
  wb_color_temp = 0;
  highlight_tone = 0;
  shadow_tone = 0;
  color = 0;
  sharpness = 0;
  nois_reduction = 0;
  clarity = 0;
  lens_modulation_opt = 0;
  color_space = 0;
  hdr = 0;
  digital_tele_conv = 0;
  portrait_enhancer = 0;
  rejected_value_black_image_tone = 0;
}

-- `fp_apply_profile(from, to)`: the new content of `to`.
unfoldable pub fp_apply_profile : FujiProfile → FujiProfile → FujiProfile
fp_apply_profile from to = record to {
  shooting_condition = from.shooting_condition;
  file_type = from.file_type;
  image_size = from.image_size;
  rotation_angle = from.rotation_angle;
  image_quality = from.image_quality;
  exposure_bias = from.exposure_bias;
  dynamic_range = from.dynamic_range;
  wide_d_range = from.wide_d_range;
  film_simulation = from.film_simulation;
  black_image_tone = from.black_image_tone;
  monochromatic_color_rg = from.monochromatic_color_rg;
  grain_effect = from.grain_effect;
  grain_effect_size = from.grain_effect_size;
  chrome_effect = from.chrome_effect;
  color_chrome_blue = from.color_chrome_blue;
  smooth_skin_effect = from.smooth_skin_effect;
  wb_shoot_cond = from.wb_shoot_cond;
  white_balance = from.white_balance;
  wb_shift_r = from.wb_shift_r;
  wb_shift_b = from.wb_shift_b;
  wb_color_temp = from.wb_color_temp;
  highlight_tone = from.highlight_tone;
  shadow_tone = from.shadow_tone;
  color = from.color;
  sharpness = from.sharpness;
  nois_reduction = from.nois_reduction;
}

unfoldable pub is_xprocessor5 : ℕ → Bool
is_xprocessor5 iop = bit_and iop 0x00ffff00 == 0x00179500

unfoldable pub fp_get_highlight_tone : FujiProfile → List FujiLookup
fp_get_highlight_tone fp =
    if is_xprocessor5 fp.iop_code then fp_range_p4_n4_halfs else fp_range_p4_n2

unfoldable pub fp_get_shadow_tone : FujiProfile → List FujiLookup
fp_get_shadow_tone fp = if is_xprocessor5 fp.iop_code then fp_range_p4_n4_halfs else fp_range_p4_n2
