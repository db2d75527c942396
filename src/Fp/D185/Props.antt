-- ===== src/Fp/D185/Props.antt =====
-- The properties of the d185 structure, and how one of them is checked on the way in and out
-- (fp/src/d185.c: `enum D185Props`, `parse_prop`, `get_prop`).
use libfuji.Common.{ℕ, ◌+◌, ◌-◌, List, [], ◌∷◌, u32, ltb, if◌then◌else◌}
use libfuji.Fp.Lookup.{Status, success, failure, ◌or_status◌, copy_value_if_valid}
use libfuji.Fp.Profile.{FujiProfile, fp_get_highlight_tone, fp_get_shadow_tone}
use libfuji.Fp.Tables.{
  fp_chrome_effect, fp_clarity, fp_color_chrome_blue, fp_color_space, fp_color_temp, fp_drange,
  fp_drange_priority, fp_exposure_bias, fp_file_type, fp_film_sim, fp_grain_effect,
  fp_grain_effect_size, fp_image_quality, fp_image_size, fp_lens_modulation, fp_noise_reduction,
  fp_range, fp_range_mono_green_magenta, fp_range_mono_shift_warm_cold, fp_range_wb_shift,
  fp_shooting_condition, fp_white_balance_mode, fp_white_balance_shoot_cond,
}

pub data D185Prop : Type 0 where
  shooting_condition : D185Prop
  file_type : D185Prop
  image_size : D185Prop
  image_quality : D185Prop
  exposure_bias : D185Prop
  dynamic_range : D185Prop
  wide_d_range : D185Prop
  film_simulation : D185Prop
  grain_effect_and_size : D185Prop
  chrome_effect : D185Prop
  white_balance_shoot_cond : D185Prop
  white_balance_mode : D185Prop
  white_balance_shift_red_green : D185Prop
  white_balance_shift_blue_yellow : D185Prop
  white_balance_color_temp : D185Prop
  highlight_tone : D185Prop
  shadow_tone : D185Prop
  color : D185Prop
  sharpness : D185Prop
  noise_reduction : D185Prop
  lens_modulation_optimization : D185Prop
  color_space : D185Prop
  black_image_tone : D185Prop
  unknown_24 : D185Prop
  color_chrome_blue : D185Prop
  monochromatic_color_rg : D185Prop
  clarity : D185Prop
  unknown_28 : D185Prop
  unknown_29 : D185Prop

-- The properties by their index, 0 to 28.
abbrev pub all_props : List D185Prop
all_props =
    D185Prop.shooting_condition ∷ D185Prop.file_type ∷ D185Prop.image_size ∷ D185Prop.image_quality
    ∷ D185Prop.exposure_bias ∷ D185Prop.dynamic_range ∷ D185Prop.wide_d_range
    ∷ D185Prop.film_simulation ∷ D185Prop.grain_effect_and_size ∷ D185Prop.chrome_effect
    ∷ D185Prop.white_balance_shoot_cond ∷ D185Prop.white_balance_mode
    ∷ D185Prop.white_balance_shift_red_green ∷ D185Prop.white_balance_shift_blue_yellow
    ∷ D185Prop.white_balance_color_temp ∷ D185Prop.highlight_tone ∷ D185Prop.shadow_tone
    ∷ D185Prop.color ∷ D185Prop.sharpness ∷ D185Prop.noise_reduction
    ∷ D185Prop.lens_modulation_optimization ∷ D185Prop.color_space ∷ D185Prop.black_image_tone
    ∷ D185Prop.unknown_24 ∷ D185Prop.color_chrome_blue ∷ D185Prop.monochromatic_color_rg
    ∷ D185Prop.clarity ∷ D185Prop.unknown_28 ∷ D185Prop.unknown_29 ∷ []

-- A call of `copy_value_if_valid` on a field: the profile after the write, and the result.
abbrev pub store : ℕ × Status → (ℕ → FujiProfile) → FujiProfile × Status
store (v, rc) write = (write v, rc)

-- A grain value above `FP_GRAIN_STRONG` carries `FP_GRAIN_SIZE_LARGE` on top of the effect.
abbrev pub without_grain_size : ℕ → ℕ
without_grain_size value = if ltb 3 value then value - 2 else value

-- The second call is made only if the first one succeeds.
unfoldable pub parse_grain : FujiProfile → ℕ → FujiProfile × Status
parse_grain fp value =
    let no_size : ℕ = without_grain_size value in
    let (fp', rc) =
      store (copy_value_if_valid no_size fp.grain_effect fp_grain_effect)
        (λ v. record fp { grain_effect = v }) in
    elim rc [
      | failure ↦ (fp', failure)
      | success ↦
          store (copy_value_if_valid (value - no_size) fp'.grain_effect_size fp_grain_effect_size)
            (λ v. record fp' { grain_effect_size = v })
    ]

unfoldable pub parse_prop : FujiProfile → D185Prop → ℕ → FujiProfile × Status
unfolding parse_grain
parse_prop fp D185Prop.shooting_condition value =
    store (copy_value_if_valid value fp.shooting_condition fp_shooting_condition)
      (λ v. record fp { shooting_condition = v })
parse_prop fp D185Prop.file_type value =
    store (copy_value_if_valid value fp.file_type fp_file_type) (λ v. record fp { file_type = v })
parse_prop fp D185Prop.image_size value =
    store (copy_value_if_valid value fp.image_size fp_image_size)
      (λ v. record fp { image_size = v })
parse_prop fp D185Prop.image_quality value =
    store (copy_value_if_valid value fp.image_quality fp_image_quality)
      (λ v. record fp { image_quality = v })
parse_prop fp D185Prop.exposure_bias value =
    store (copy_value_if_valid value fp.exposure_bias fp_exposure_bias)
      (λ v. record fp { exposure_bias = v })
parse_prop fp D185Prop.dynamic_range value =
    store (copy_value_if_valid value fp.dynamic_range fp_drange)
      (λ v. record fp { dynamic_range = v })
parse_prop fp D185Prop.wide_d_range value =
    store (copy_value_if_valid value fp.wide_d_range fp_drange_priority)
      (λ v. record fp { wide_d_range = v })
parse_prop fp D185Prop.film_simulation value =
    store (copy_value_if_valid value fp.film_simulation fp_film_sim)
      (λ v. record fp { film_simulation = v })
parse_prop fp D185Prop.grain_effect_and_size value = parse_grain fp value
parse_prop fp D185Prop.chrome_effect value =
    store (copy_value_if_valid value fp.chrome_effect fp_chrome_effect)
      (λ v. record fp { chrome_effect = v })
parse_prop fp D185Prop.white_balance_shoot_cond value =
    let fp' = record fp { wb_shoot_cond = value } in
    store (copy_value_if_valid value fp'.wb_shoot_cond fp_white_balance_shoot_cond)
      (λ v. record fp' { wb_shoot_cond = v })
parse_prop fp D185Prop.white_balance_mode value =
    store (copy_value_if_valid value fp.white_balance fp_white_balance_mode)
      (λ v. record fp { white_balance = v })
parse_prop fp D185Prop.white_balance_shift_red_green value =
    store (copy_value_if_valid value fp.wb_shift_r fp_range_wb_shift)
      (λ v. record fp { wb_shift_r = v })
parse_prop fp D185Prop.white_balance_shift_blue_yellow value =
    store (copy_value_if_valid value fp.wb_shift_b fp_range_wb_shift)
      (λ v. record fp { wb_shift_b = v })
parse_prop fp D185Prop.white_balance_color_temp value =
    store (copy_value_if_valid value fp.wb_color_temp fp_color_temp)
      (λ v. record fp { wb_color_temp = v })
parse_prop fp D185Prop.highlight_tone value =
    store (copy_value_if_valid value fp.highlight_tone (fp_get_highlight_tone fp))
      (λ v. record fp { highlight_tone = v })
parse_prop fp D185Prop.shadow_tone value =
    store (copy_value_if_valid value fp.shadow_tone (fp_get_shadow_tone fp))
      (λ v. record fp { shadow_tone = v })
parse_prop fp D185Prop.color value =
    store (copy_value_if_valid value fp.color fp_range) (λ v. record fp { color = v })
parse_prop fp D185Prop.sharpness value =
    store (copy_value_if_valid value fp.sharpness fp_range) (λ v. record fp { sharpness = v })
parse_prop fp D185Prop.noise_reduction value =
    store (copy_value_if_valid value fp.nois_reduction fp_noise_reduction)
      (λ v. record fp { nois_reduction = v })
parse_prop fp D185Prop.lens_modulation_optimization value =
    store (copy_value_if_valid value fp.lens_modulation_opt fp_lens_modulation)
      (λ v. record fp { lens_modulation_opt = v })
parse_prop fp D185Prop.color_space value =
    store (copy_value_if_valid value fp.color_space fp_color_space)
      (λ v. record fp { color_space = v })
parse_prop fp D185Prop.black_image_tone value =
    store (copy_value_if_valid value fp.black_image_tone fp_range_mono_shift_warm_cold)
      (λ v. record fp { black_image_tone = v })
parse_prop fp D185Prop.unknown_24 value = (fp, success)
parse_prop fp D185Prop.color_chrome_blue value =
    store (copy_value_if_valid value fp.color_chrome_blue fp_color_chrome_blue)
      (λ v. record fp { color_chrome_blue = v })
parse_prop fp D185Prop.monochromatic_color_rg value =
    store (copy_value_if_valid value fp.monochromatic_color_rg fp_range_mono_green_magenta)
      (λ v. record fp { monochromatic_color_rg = v })
parse_prop fp D185Prop.clarity value =
    store (copy_value_if_valid value fp.clarity fp_clarity) (λ v. record fp { clarity = v })
parse_prop fp D185Prop.unknown_28 value = (fp, success)
parse_prop fp D185Prop.unknown_29 value = (fp, success)

-- `get_prop`: the content of `*value` after the call, from that before it, and the result.
-- `value_size` is the content of the local variable of that name, which C leaves indeterminate.
unfoldable pub get_prop : FujiProfile → D185Prop → ℕ → ℕ → ℕ × Status
get_prop fp D185Prop.shooting_condition value value_size =
    copy_value_if_valid fp.shooting_condition value fp_shooting_condition
get_prop fp D185Prop.file_type value value_size =
    copy_value_if_valid fp.file_type value fp_file_type
get_prop fp D185Prop.image_size value value_size =
    copy_value_if_valid fp.image_size value fp_image_size
get_prop fp D185Prop.image_quality value value_size =
    copy_value_if_valid fp.image_quality value fp_image_quality
get_prop fp D185Prop.exposure_bias value value_size =
    copy_value_if_valid fp.exposure_bias value fp_exposure_bias
get_prop fp D185Prop.dynamic_range value value_size =
    copy_value_if_valid fp.dynamic_range value fp_drange
get_prop fp D185Prop.wide_d_range value value_size =
    copy_value_if_valid fp.wide_d_range value fp_drange_priority
get_prop fp D185Prop.film_simulation value value_size =
    copy_value_if_valid fp.film_simulation value fp_film_sim
get_prop fp D185Prop.grain_effect_and_size value value_size =
    let (v, rc) = copy_value_if_valid fp.grain_effect value fp_grain_effect in
    let (size, rc') = copy_value_if_valid fp.grain_effect_size value_size fp_grain_effect_size in
    (u32 (v + size), rc or_status rc')
get_prop fp D185Prop.chrome_effect value value_size =
    copy_value_if_valid fp.chrome_effect value fp_chrome_effect
get_prop fp D185Prop.white_balance_shoot_cond value value_size =
    copy_value_if_valid fp.wb_shoot_cond value fp_white_balance_shoot_cond
get_prop fp D185Prop.white_balance_mode value value_size =
    copy_value_if_valid fp.white_balance value fp_white_balance_mode
get_prop fp D185Prop.white_balance_shift_red_green value value_size =
    copy_value_if_valid fp.wb_shift_r value fp_range_wb_shift
get_prop fp D185Prop.white_balance_shift_blue_yellow value value_size =
    copy_value_if_valid fp.wb_shift_b value fp_range_wb_shift
get_prop fp D185Prop.white_balance_color_temp value value_size =
    copy_value_if_valid fp.wb_color_temp value fp_color_temp
get_prop fp D185Prop.highlight_tone value value_size =
    copy_value_if_valid fp.highlight_tone value (fp_get_highlight_tone fp)
get_prop fp D185Prop.shadow_tone value value_size =
    copy_value_if_valid fp.shadow_tone value (fp_get_shadow_tone fp)
get_prop fp D185Prop.color value value_size = copy_value_if_valid fp.color value fp_range
get_prop fp D185Prop.sharpness value value_size = copy_value_if_valid fp.sharpness value fp_range
get_prop fp D185Prop.noise_reduction value value_size =
    copy_value_if_valid fp.nois_reduction value fp_noise_reduction
get_prop fp D185Prop.lens_modulation_optimization value value_size =
    copy_value_if_valid fp.lens_modulation_opt value fp_lens_modulation
get_prop fp D185Prop.color_space value value_size =
    copy_value_if_valid fp.color_space value fp_color_space
get_prop fp D185Prop.black_image_tone value value_size =
    copy_value_if_valid fp.black_image_tone value fp_range_mono_shift_warm_cold
get_prop fp D185Prop.unknown_24 value value_size = (0, success)
get_prop fp D185Prop.color_chrome_blue value value_size =
    copy_value_if_valid fp.color_chrome_blue value fp_color_chrome_blue
get_prop fp D185Prop.monochromatic_color_rg value value_size =
    copy_value_if_valid fp.monochromatic_color_rg value fp_range_mono_green_magenta
get_prop fp D185Prop.clarity value value_size = copy_value_if_valid fp.clarity value fp_clarity
get_prop fp D185Prop.unknown_28 value value_size = (0, success)
get_prop fp D185Prop.unknown_29 value value_size = (0, success)
