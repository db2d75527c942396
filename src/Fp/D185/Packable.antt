-- ===== src/Fp/D185/Packable.antt =====
-- The profiles that the d185 format can carry, the value that each of its properties has for one,
-- and what reading that value back does.
use libfuji.Common.{ℕ, ◌+◌, ◌^◌, ◌<◌, ◌≡◌, true, List, [], ◌∷◌, arith}
use libfuji.Fp.Lookup.{FujiLookup, success, has_value, copy_value_if_valid}
use libfuji.Fp.Profile.{FujiProfile, fp_get_highlight_tone, fp_get_shadow_tone}
use libfuji.Fp.Tables.{
  fp_chrome_effect, fp_clarity, fp_color_chrome_blue, fp_color_space, fp_color_temp, fp_drange,
  fp_drange_priority, fp_exposure_bias, fp_file_type, fp_film_sim, fp_grain_effect,
  fp_grain_effect_size, fp_image_quality, fp_image_size, fp_lens_modulation, fp_noise_reduction,
  fp_range, fp_range_mono_green_magenta, fp_range_mono_shift_warm_cold, fp_range_wb_shift,
  fp_shooting_condition, fp_white_balance_mode, fp_white_balance_shoot_cond,
}
use libfuji.Fp.D185.Props.{D185Prop}

-- A `uint32_t` that some row of the table has as its value.
abbrev pub IsListed : ℕ → List FujiLookup → Type 0
IsListed v tbl = (has_value v tbl ≡ true) × (v < 2 ^ 32)

-- Each property's field is listed in the property's table, and the grain size is `SMALL` (0) where
-- the grain is off (1).
pub record IsPackable (fp : FujiProfile) : Type 0 where
  pub shooting_condition : IsListed fp.shooting_condition fp_shooting_condition
  pub file_type : IsListed fp.file_type fp_file_type
  pub image_size : IsListed fp.image_size fp_image_size
  pub image_quality : IsListed fp.image_quality fp_image_quality
  pub exposure_bias : IsListed fp.exposure_bias fp_exposure_bias
  pub dynamic_range : IsListed fp.dynamic_range fp_drange
  pub wide_d_range : IsListed fp.wide_d_range fp_drange_priority
  pub film_simulation : IsListed fp.film_simulation fp_film_sim
  pub grain_effect : IsListed fp.grain_effect fp_grain_effect
  pub grain_effect_size : IsListed fp.grain_effect_size fp_grain_effect_size
  pub grain_off : fp.grain_effect ≡ 1 → fp.grain_effect_size ≡ 0
  pub chrome_effect : IsListed fp.chrome_effect fp_chrome_effect
  pub wb_shoot_cond : IsListed fp.wb_shoot_cond fp_white_balance_shoot_cond
  pub white_balance : IsListed fp.white_balance fp_white_balance_mode
  pub wb_shift_r : IsListed fp.wb_shift_r fp_range_wb_shift
  pub wb_shift_b : IsListed fp.wb_shift_b fp_range_wb_shift
  pub wb_color_temp : IsListed fp.wb_color_temp fp_color_temp
  pub highlight_tone : IsListed fp.highlight_tone (fp_get_highlight_tone fp)
  pub shadow_tone : IsListed fp.shadow_tone (fp_get_shadow_tone fp)
  pub color : IsListed fp.color fp_range
  pub sharpness : IsListed fp.sharpness fp_range
  pub nois_reduction : IsListed fp.nois_reduction fp_noise_reduction
  pub lens_modulation_opt : IsListed fp.lens_modulation_opt fp_lens_modulation
  pub color_space : IsListed fp.color_space fp_color_space
  pub black_image_tone : IsListed fp.black_image_tone fp_range_mono_shift_warm_cold
  pub color_chrome_blue : IsListed fp.color_chrome_blue fp_color_chrome_blue
  pub monochromatic_color_rg : IsListed fp.monochromatic_color_rg fp_range_mono_green_magenta
  pub clarity : IsListed fp.clarity fp_clarity

pub copy-listed :
    (v out : ℕ) (tbl : List FujiLookup)
    → has_value v tbl ≡ true
    → copy_value_if_valid v out tbl ≡ (v, success)
unfolding has_value copy_value_if_valid
copy-listed v out [] h = cc
copy-listed v out (r ∷ tbl) h = ground (arith, copy-listed v out tbl)

-- The number that stands for a property.
unfoldable pub packed : FujiProfile → D185Prop → ℕ
packed fp D185Prop.shooting_condition = fp.shooting_condition
packed fp D185Prop.file_type = fp.file_type
packed fp D185Prop.image_size = fp.image_size
packed fp D185Prop.image_quality = fp.image_quality
packed fp D185Prop.exposure_bias = fp.exposure_bias
packed fp D185Prop.dynamic_range = fp.dynamic_range
packed fp D185Prop.wide_d_range = fp.wide_d_range
packed fp D185Prop.film_simulation = fp.film_simulation
packed fp D185Prop.grain_effect_and_size = fp.grain_effect + fp.grain_effect_size
packed fp D185Prop.chrome_effect = fp.chrome_effect
packed fp D185Prop.white_balance_shoot_cond = fp.wb_shoot_cond
packed fp D185Prop.white_balance_mode = fp.white_balance
packed fp D185Prop.white_balance_shift_red_green = fp.wb_shift_r
packed fp D185Prop.white_balance_shift_blue_yellow = fp.wb_shift_b
packed fp D185Prop.white_balance_color_temp = fp.wb_color_temp
packed fp D185Prop.highlight_tone = fp.highlight_tone
packed fp D185Prop.shadow_tone = fp.shadow_tone
packed fp D185Prop.color = fp.color
packed fp D185Prop.sharpness = fp.sharpness
packed fp D185Prop.noise_reduction = fp.nois_reduction
packed fp D185Prop.lens_modulation_optimization = fp.lens_modulation_opt
packed fp D185Prop.color_space = fp.color_space
packed fp D185Prop.black_image_tone = fp.black_image_tone
packed fp D185Prop.unknown_24 = 0
packed fp D185Prop.color_chrome_blue = fp.color_chrome_blue
packed fp D185Prop.monochromatic_color_rg = fp.monochromatic_color_rg
packed fp D185Prop.clarity = fp.clarity
packed fp D185Prop.unknown_28 = 0
packed fp D185Prop.unknown_29 = 0

-- The fields of one property, copied over.
unfoldable pub fill : FujiProfile → D185Prop → FujiProfile → FujiProfile
fill from D185Prop.shooting_condition to = record to {
  shooting_condition = from.shooting_condition;
}
fill from D185Prop.file_type to = record to { file_type = from.file_type }
fill from D185Prop.image_size to = record to { image_size = from.image_size }
fill from D185Prop.image_quality to = record to { image_quality = from.image_quality }
fill from D185Prop.exposure_bias to = record to { exposure_bias = from.exposure_bias }
fill from D185Prop.dynamic_range to = record to { dynamic_range = from.dynamic_range }
fill from D185Prop.wide_d_range to = record to { wide_d_range = from.wide_d_range }
fill from D185Prop.film_simulation to = record to { film_simulation = from.film_simulation }
fill from D185Prop.grain_effect_and_size to = record to {
  grain_effect = from.grain_effect;
  grain_effect_size = from.grain_effect_size;
}
fill from D185Prop.chrome_effect to = record to { chrome_effect = from.chrome_effect }
fill from D185Prop.white_balance_shoot_cond to = record to { wb_shoot_cond = from.wb_shoot_cond }
fill from D185Prop.white_balance_mode to = record to { white_balance = from.white_balance }
fill from D185Prop.white_balance_shift_red_green to = record to { wb_shift_r = from.wb_shift_r }
fill from D185Prop.white_balance_shift_blue_yellow to = record to { wb_shift_b = from.wb_shift_b }
fill from D185Prop.white_balance_color_temp to = record to { wb_color_temp = from.wb_color_temp }
fill from D185Prop.highlight_tone to = record to { highlight_tone = from.highlight_tone }
fill from D185Prop.shadow_tone to = record to { shadow_tone = from.shadow_tone }
fill from D185Prop.color to = record to { color = from.color }
fill from D185Prop.sharpness to = record to { sharpness = from.sharpness }
fill from D185Prop.noise_reduction to = record to { nois_reduction = from.nois_reduction }
fill from D185Prop.lens_modulation_optimization to = record to {
  lens_modulation_opt = from.lens_modulation_opt;
}
fill from D185Prop.color_space to = record to { color_space = from.color_space }
fill from D185Prop.black_image_tone to = record to { black_image_tone = from.black_image_tone }
fill from D185Prop.unknown_24 to = to
fill from D185Prop.color_chrome_blue to = record to { color_chrome_blue = from.color_chrome_blue }
fill from D185Prop.monochromatic_color_rg to = record to {
  monochromatic_color_rg = from.monochromatic_color_rg;
}
fill from D185Prop.clarity to = record to { clarity = from.clarity }
fill from D185Prop.unknown_28 to = to
fill from D185Prop.unknown_29 to = to
