-- ===== src/Fp/D185/Values.antt =====
-- One property out of a packable profile and back.
use libfuji.Common.{ℕ, ◌+◌, ◌-◌, ◌<◌, ◌^◌, ◌≤◌, ◌≡◌, ◌⊎◌, refl, true, arith, u32}
use libfuji.Fp.Lookup.{success, has_value}
use libfuji.Fp.Profile.{FujiProfile, fp_get_highlight_tone, fp_get_shadow_tone}
use libfuji.Fp.Tables.{
  fp_chrome_effect, fp_clarity, fp_color_chrome_blue, fp_color_space, fp_color_temp, fp_drange,
  fp_drange_priority, fp_exposure_bias, fp_file_type, fp_film_sim, fp_grain_effect,
  fp_grain_effect_size, fp_image_quality, fp_image_size, fp_lens_modulation, fp_noise_reduction,
  fp_range, fp_range_mono_green_magenta, fp_range_mono_shift_warm_cold, fp_range_wb_shift,
  fp_shooting_condition, fp_white_balance_mode, fp_white_balance_shoot_cond,
}
use libfuji.Fp.D185.Props.{D185Prop, get_prop, parse_prop, parse_grain, without_grain_size}
use libfuji.Fp.D185.Packable.{IsPackable, packed, fill, copy-listed}

-- The possible grain values.
listed_grain : (v : ℕ) → has_value v fp_grain_effect ≡ true → (1 ≤ v) × (v ≤ 3)
unfolding has_value fp_grain_effect
listed_grain v h = ground arith

listed_grain_size : (v : ℕ) → has_value v fp_grain_effect_size ≡ true → (v ≡ 0) ⊎ (v ≡ 2)
unfolding has_value fp_grain_effect_size
listed_grain_size v h = ground arith

-- `get_prop` gives the property's number, whatever the variables held before.
pub get_prop-packed :
    (fp : FujiProfile)
    → IsPackable fp
    → (p : D185Prop) (value value_size : ℕ)
    → get_prop fp p value value_size ≡ (packed fp p, success)
unfolding get_prop packed
get_prop-packed fp v D185Prop.shooting_condition a b =
    copy-listed fp.shooting_condition a fp_shooting_condition v.shooting_condition.0
get_prop-packed fp v D185Prop.file_type a b = copy-listed fp.file_type a fp_file_type v.file_type.0
get_prop-packed fp v D185Prop.image_size a b =
    copy-listed fp.image_size a fp_image_size v.image_size.0
get_prop-packed fp v D185Prop.image_quality a b =
    copy-listed fp.image_quality a fp_image_quality v.image_quality.0
get_prop-packed fp v D185Prop.exposure_bias a b =
    copy-listed fp.exposure_bias a fp_exposure_bias v.exposure_bias.0
get_prop-packed fp v D185Prop.dynamic_range a b =
    copy-listed fp.dynamic_range a fp_drange v.dynamic_range.0
get_prop-packed fp v D185Prop.wide_d_range a b =
    copy-listed fp.wide_d_range a fp_drange_priority v.wide_d_range.0
get_prop-packed fp v D185Prop.film_simulation a b =
    copy-listed fp.film_simulation a fp_film_sim v.film_simulation.0
get_prop-packed fp v D185Prop.grain_effect_and_size a b =
    rw
      (
        copy-listed fp.grain_effect a fp_grain_effect v.grain_effect.0,
        copy-listed fp.grain_effect_size b fp_grain_effect_size v.grain_effect_size.0,
      )
      (let e : u32 (fp.grain_effect + fp.grain_effect_size)
            ≡ fp.grain_effect + fp.grain_effect_size =
          omega (
            arith,
            listed_grain fp.grain_effect v.grain_effect.0,
            listed_grain_size fp.grain_effect_size v.grain_effect_size.0,
          ) in
        rw e)
get_prop-packed fp v D185Prop.chrome_effect a b =
    copy-listed fp.chrome_effect a fp_chrome_effect v.chrome_effect.0
get_prop-packed fp v D185Prop.white_balance_shoot_cond a b =
    copy-listed fp.wb_shoot_cond a fp_white_balance_shoot_cond v.wb_shoot_cond.0
get_prop-packed fp v D185Prop.white_balance_mode a b =
    copy-listed fp.white_balance a fp_white_balance_mode v.white_balance.0
get_prop-packed fp v D185Prop.white_balance_shift_red_green a b =
    copy-listed fp.wb_shift_r a fp_range_wb_shift v.wb_shift_r.0
get_prop-packed fp v D185Prop.white_balance_shift_blue_yellow a b =
    copy-listed fp.wb_shift_b a fp_range_wb_shift v.wb_shift_b.0
get_prop-packed fp v D185Prop.white_balance_color_temp a b =
    copy-listed fp.wb_color_temp a fp_color_temp v.wb_color_temp.0
get_prop-packed fp v D185Prop.highlight_tone a b =
    copy-listed fp.highlight_tone a (fp_get_highlight_tone fp) v.highlight_tone.0
get_prop-packed fp v D185Prop.shadow_tone a b =
    copy-listed fp.shadow_tone a (fp_get_shadow_tone fp) v.shadow_tone.0
get_prop-packed fp v D185Prop.color a b = copy-listed fp.color a fp_range v.color.0
get_prop-packed fp v D185Prop.sharpness a b = copy-listed fp.sharpness a fp_range v.sharpness.0
get_prop-packed fp v D185Prop.noise_reduction a b =
    copy-listed fp.nois_reduction a fp_noise_reduction v.nois_reduction.0
get_prop-packed fp v D185Prop.lens_modulation_optimization a b =
    copy-listed fp.lens_modulation_opt a fp_lens_modulation v.lens_modulation_opt.0
get_prop-packed fp v D185Prop.color_space a b =
    copy-listed fp.color_space a fp_color_space v.color_space.0
get_prop-packed fp v D185Prop.black_image_tone a b =
    copy-listed fp.black_image_tone a fp_range_mono_shift_warm_cold v.black_image_tone.0
get_prop-packed fp v D185Prop.unknown_24 a b = refl
get_prop-packed fp v D185Prop.color_chrome_blue a b =
    copy-listed fp.color_chrome_blue a fp_color_chrome_blue v.color_chrome_blue.0
get_prop-packed fp v D185Prop.monochromatic_color_rg a b =
    copy-listed fp.monochromatic_color_rg a fp_range_mono_green_magenta v.monochromatic_color_rg.0
get_prop-packed fp v D185Prop.clarity a b = copy-listed fp.clarity a fp_clarity v.clarity.0
get_prop-packed fp v D185Prop.unknown_28 a b = refl
get_prop-packed fp v D185Prop.unknown_29 a b = refl

grain_split :
    (e s : ℕ)
    → (1 ≤ e) × (e ≤ 3)
    → (s ≡ 0) ⊎ (s ≡ 2)
    → (e ≡ 1 → s ≡ 0)
    → (without_grain_size (e + s) ≡ e) × (e + s - e ≡ s)
grain_split e s he hs off = ground arith

parse_grain-packed :
    (fp to : FujiProfile)
    → IsPackable fp
    → parse_grain to (fp.grain_effect + fp.grain_effect_size) ≡ (
      record to { grain_effect = fp.grain_effect; grain_effect_size = fp.grain_effect_size },
      success,
    )
unfolding parse_grain
parse_grain-packed fp to v =
    let e = fp.grain_effect in
    let sz = fp.grain_effect_size in
    let parts =
      grain_split e sz (listed_grain e v.grain_effect.0)
        (listed_grain_size sz v.grain_effect_size.0) v.grain_off in
    ground (
      arith,
      parts,
      copy-listed e to.grain_effect fp_grain_effect v.grain_effect.0,
      copy-listed sz to.grain_effect_size fp_grain_effect_size v.grain_effect_size.0,
    )

same_highlight_tone :
    (fp to : FujiProfile)
    → to.iop_code ≡ fp.iop_code
    → fp_get_highlight_tone to ≡ fp_get_highlight_tone fp
unfolding fp_get_highlight_tone
same_highlight_tone fp to e = rw e

same_shadow_tone :
    (fp to : FujiProfile)
    → to.iop_code ≡ fp.iop_code
    → fp_get_shadow_tone to ≡ fp_get_shadow_tone fp
unfolding fp_get_shadow_tone
same_shadow_tone fp to e = rw e

-- The number is read back into the fields that it came from, if the processor code is there already.
pub parse_prop-packed :
    (fp to : FujiProfile)
    → IsPackable fp
    → to.iop_code ≡ fp.iop_code
    → (p : D185Prop) → parse_prop to p (packed fp p) ≡ (fill fp p to, success)
unfolding parse_prop packed fill
parse_prop-packed fp to v e D185Prop.shooting_condition = rw (
    copy-listed fp.shooting_condition to.shooting_condition fp_shooting_condition
      v.shooting_condition.0)
parse_prop-packed fp to v e D185Prop.file_type =
    rw (copy-listed fp.file_type to.file_type fp_file_type v.file_type.0)
parse_prop-packed fp to v e D185Prop.image_size =
    rw (copy-listed fp.image_size to.image_size fp_image_size v.image_size.0)
parse_prop-packed fp to v e D185Prop.image_quality =
    rw (copy-listed fp.image_quality to.image_quality fp_image_quality v.image_quality.0)
parse_prop-packed fp to v e D185Prop.exposure_bias =
    rw (copy-listed fp.exposure_bias to.exposure_bias fp_exposure_bias v.exposure_bias.0)
parse_prop-packed fp to v e D185Prop.dynamic_range =
    rw (copy-listed fp.dynamic_range to.dynamic_range fp_drange v.dynamic_range.0)
parse_prop-packed fp to v e D185Prop.wide_d_range =
    rw (copy-listed fp.wide_d_range to.wide_d_range fp_drange_priority v.wide_d_range.0)
parse_prop-packed fp to v e D185Prop.film_simulation =
    rw (copy-listed fp.film_simulation to.film_simulation fp_film_sim v.film_simulation.0)
parse_prop-packed fp to v e D185Prop.grain_effect_and_size = parse_grain-packed fp to v
parse_prop-packed fp to v e D185Prop.chrome_effect =
    rw (copy-listed fp.chrome_effect to.chrome_effect fp_chrome_effect v.chrome_effect.0)
parse_prop-packed fp to v e D185Prop.white_balance_shoot_cond =
    rw (copy-listed fp.wb_shoot_cond fp.wb_shoot_cond fp_white_balance_shoot_cond v.wb_shoot_cond.0)
parse_prop-packed fp to v e D185Prop.white_balance_mode =
    rw (copy-listed fp.white_balance to.white_balance fp_white_balance_mode v.white_balance.0)
parse_prop-packed fp to v e D185Prop.white_balance_shift_red_green =
    rw (copy-listed fp.wb_shift_r to.wb_shift_r fp_range_wb_shift v.wb_shift_r.0)
parse_prop-packed fp to v e D185Prop.white_balance_shift_blue_yellow =
    rw (copy-listed fp.wb_shift_b to.wb_shift_b fp_range_wb_shift v.wb_shift_b.0)
parse_prop-packed fp to v e D185Prop.white_balance_color_temp =
    rw (copy-listed fp.wb_color_temp to.wb_color_temp fp_color_temp v.wb_color_temp.0)
parse_prop-packed fp to v e D185Prop.highlight_tone = rw (
  same_highlight_tone fp to e,
  copy-listed fp.highlight_tone to.highlight_tone (fp_get_highlight_tone fp) v.highlight_tone.0,
)
parse_prop-packed fp to v e D185Prop.shadow_tone = rw (
  same_shadow_tone fp to e,
  copy-listed fp.shadow_tone to.shadow_tone (fp_get_shadow_tone fp) v.shadow_tone.0,
)
parse_prop-packed fp to v e D185Prop.color = rw (copy-listed fp.color to.color fp_range v.color.0)
parse_prop-packed fp to v e D185Prop.sharpness =
    rw (copy-listed fp.sharpness to.sharpness fp_range v.sharpness.0)
parse_prop-packed fp to v e D185Prop.noise_reduction =
    rw (copy-listed fp.nois_reduction to.nois_reduction fp_noise_reduction v.nois_reduction.0)
parse_prop-packed fp to v e D185Prop.lens_modulation_optimization = rw (
    copy-listed fp.lens_modulation_opt to.lens_modulation_opt fp_lens_modulation
      v.lens_modulation_opt.0)
parse_prop-packed fp to v e D185Prop.color_space =
    rw (copy-listed fp.color_space to.color_space fp_color_space v.color_space.0)
parse_prop-packed fp to v e D185Prop.black_image_tone = rw (
    copy-listed fp.black_image_tone to.black_image_tone fp_range_mono_shift_warm_cold
      v.black_image_tone.0)
parse_prop-packed fp to v e D185Prop.unknown_24 = refl
parse_prop-packed fp to v e D185Prop.color_chrome_blue = rw (
    copy-listed fp.color_chrome_blue to.color_chrome_blue fp_color_chrome_blue
      v.color_chrome_blue.0)
parse_prop-packed fp to v e D185Prop.monochromatic_color_rg = rw (
    copy-listed fp.monochromatic_color_rg to.monochromatic_color_rg fp_range_mono_green_magenta
      v.monochromatic_color_rg.0)
parse_prop-packed fp to v e D185Prop.clarity =
    rw (copy-listed fp.clarity to.clarity fp_clarity v.clarity.0)
parse_prop-packed fp to v e D185Prop.unknown_28 = refl
parse_prop-packed fp to v e D185Prop.unknown_29 = refl

pub packed-lt : (fp : FujiProfile) → IsPackable fp → (p : D185Prop) → packed fp p < 2 ^ 32
unfolding packed
packed-lt fp v D185Prop.shooting_condition = v.shooting_condition.1
packed-lt fp v D185Prop.file_type = v.file_type.1
packed-lt fp v D185Prop.image_size = v.image_size.1
packed-lt fp v D185Prop.image_quality = v.image_quality.1
packed-lt fp v D185Prop.exposure_bias = v.exposure_bias.1
packed-lt fp v D185Prop.dynamic_range = v.dynamic_range.1
packed-lt fp v D185Prop.wide_d_range = v.wide_d_range.1
packed-lt fp v D185Prop.film_simulation = v.film_simulation.1
packed-lt fp v D185Prop.grain_effect_and_size = omega (
  arith,
  listed_grain fp.grain_effect v.grain_effect.0,
  listed_grain_size fp.grain_effect_size v.grain_effect_size.0,
)
packed-lt fp v D185Prop.chrome_effect = v.chrome_effect.1
packed-lt fp v D185Prop.white_balance_shoot_cond = v.wb_shoot_cond.1
packed-lt fp v D185Prop.white_balance_mode = v.white_balance.1
packed-lt fp v D185Prop.white_balance_shift_red_green = v.wb_shift_r.1
packed-lt fp v D185Prop.white_balance_shift_blue_yellow = v.wb_shift_b.1
packed-lt fp v D185Prop.white_balance_color_temp = v.wb_color_temp.1
packed-lt fp v D185Prop.highlight_tone = v.highlight_tone.1
packed-lt fp v D185Prop.shadow_tone = v.shadow_tone.1
packed-lt fp v D185Prop.color = v.color.1
packed-lt fp v D185Prop.sharpness = v.sharpness.1
packed-lt fp v D185Prop.noise_reduction = v.nois_reduction.1
packed-lt fp v D185Prop.lens_modulation_optimization = v.lens_modulation_opt.1
packed-lt fp v D185Prop.color_space = v.color_space.1
packed-lt fp v D185Prop.black_image_tone = v.black_image_tone.1
packed-lt fp v D185Prop.unknown_24 = omega arith
packed-lt fp v D185Prop.color_chrome_blue = v.color_chrome_blue.1
packed-lt fp v D185Prop.monochromatic_color_rg = v.monochromatic_color_rg.1
packed-lt fp v D185Prop.clarity = v.clarity.1
packed-lt fp v D185Prop.unknown_28 = omega arith
packed-lt fp v D185Prop.unknown_29 = omega arith
