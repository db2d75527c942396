-- ===== src/Tests/D185.antt =====
-- A profile that the d185 format can carry, and runs of the codec on it.
use libfuji.Common.{ℕ, ◌≡◌, refl, List, ◌∷◌, none, some, length, replicate, length-replicate, arith}
use libfuji.Fp.Lookup.{success, has_value, Status}
use libfuji.Fp.Profile.{
  FujiProfile, zeroed, fp_get_highlight_tone, fp_get_shadow_tone, is_xprocessor5,
}
use libfuji.Fp.Tables.{
  fp_chrome_effect, fp_clarity, fp_color_chrome_blue, fp_color_space, fp_color_temp, fp_drange,
  fp_drange_priority, fp_exposure_bias, fp_file_type, fp_film_sim, fp_grain_effect,
  fp_grain_effect_size, fp_image_quality, fp_image_size, fp_lens_modulation, fp_noise_reduction,
  fp_range, fp_range_mono_green_magenta, fp_range_mono_shift_warm_cold, fp_range_p4_n2,
  fp_range_wb_shift, fp_shooting_condition, fp_white_balance_mode, fp_white_balance_shoot_cond,
}
use libfuji.Fp.D185.Props.{D185Prop}
use libfuji.Fp.D185.Packable.{IsPackable, IsListed}
use libfuji.Fp.D185.Codec.{fp_create_d185, fp_parse_d185}
use libfuji.Fp.D185.RoundTrip.{parse-create_d185, create_d185_overflow, image}
use libfuji.Fp.D185.Safety.{parse_d185_in_bounds}

abbrev sample : FujiProfile
sample = record zeroed {
  iop_code = 0xFF159502;
  shooting_condition = 1;
  file_type = 7;
  image_size = 7;
  image_quality = 2;
  exposure_bias = 333;
  dynamic_range = 100;
  wide_d_range = 0;
  film_simulation = 17;
  grain_effect = 3;
  grain_effect_size = 2;
  chrome_effect = 2;
  wb_shoot_cond = 2;
  white_balance = 2;
  wb_shift_r = 20;
  wb_shift_b = 4294967276;
  wb_color_temp = 0;
  highlight_tone = 10;
  shadow_tone = 20;
  color = 30;
  sharpness = 10;
  nois_reduction = 8192;
  lens_modulation_opt = 1;
  color_space = 1;
  black_image_tone = 0;
  color_chrome_blue = 1;
  monochromatic_color_rg = 0;
  clarity = 10;
}

sample_shooting_condition : IsListed sample.shooting_condition fp_shooting_condition
unfolding has_value fp_shooting_condition
sample_shooting_condition = (refl, omega arith)

sample_file_type : IsListed sample.file_type fp_file_type
unfolding has_value fp_file_type
sample_file_type = (refl, omega arith)

sample_image_size : IsListed sample.image_size fp_image_size
unfolding has_value fp_image_size
sample_image_size = (refl, omega arith)

sample_image_quality : IsListed sample.image_quality fp_image_quality
unfolding has_value fp_image_quality
sample_image_quality = (refl, omega arith)

sample_exposure_bias : IsListed sample.exposure_bias fp_exposure_bias
unfolding has_value fp_exposure_bias
sample_exposure_bias = (refl, omega arith)

sample_dynamic_range : IsListed sample.dynamic_range fp_drange
unfolding has_value fp_drange
sample_dynamic_range = (refl, omega arith)

sample_wide_d_range : IsListed sample.wide_d_range fp_drange_priority
unfolding has_value fp_drange_priority
sample_wide_d_range = (refl, omega arith)

sample_film_simulation : IsListed sample.film_simulation fp_film_sim
unfolding has_value fp_film_sim
sample_film_simulation = (refl, omega arith)

sample_grain_effect : IsListed sample.grain_effect fp_grain_effect
unfolding has_value fp_grain_effect
sample_grain_effect = (refl, omega arith)

sample_grain_effect_size : IsListed sample.grain_effect_size fp_grain_effect_size
unfolding has_value fp_grain_effect_size
sample_grain_effect_size = (refl, omega arith)

sample_chrome_effect : IsListed sample.chrome_effect fp_chrome_effect
unfolding has_value fp_chrome_effect
sample_chrome_effect = (refl, omega arith)

sample_wb_shoot_cond : IsListed sample.wb_shoot_cond fp_white_balance_shoot_cond
unfolding has_value fp_white_balance_shoot_cond
sample_wb_shoot_cond = (refl, omega arith)

sample_white_balance : IsListed sample.white_balance fp_white_balance_mode
unfolding has_value fp_white_balance_mode
sample_white_balance = (refl, omega arith)

sample_wb_shift_r : IsListed sample.wb_shift_r fp_range_wb_shift
unfolding has_value fp_range_wb_shift
sample_wb_shift_r = (refl, omega arith)

sample_wb_shift_b : IsListed sample.wb_shift_b fp_range_wb_shift
unfolding has_value fp_range_wb_shift
sample_wb_shift_b = (refl, omega arith)

sample_wb_color_temp : IsListed sample.wb_color_temp fp_color_temp
unfolding has_value fp_color_temp
sample_wb_color_temp = (refl, omega arith)

sample_highlight_tone : IsListed sample.highlight_tone (fp_get_highlight_tone sample)
unfolding has_value fp_range_p4_n2 fp_get_highlight_tone is_xprocessor5
sample_highlight_tone = (refl, omega arith)

sample_shadow_tone : IsListed sample.shadow_tone (fp_get_shadow_tone sample)
unfolding has_value fp_range_p4_n2 fp_get_shadow_tone is_xprocessor5
sample_shadow_tone = (refl, omega arith)

sample_color : IsListed sample.color fp_range
unfolding has_value fp_range
sample_color = (refl, omega arith)

sample_sharpness : IsListed sample.sharpness fp_range
unfolding has_value fp_range
sample_sharpness = (refl, omega arith)

sample_nois_reduction : IsListed sample.nois_reduction fp_noise_reduction
unfolding has_value fp_noise_reduction
sample_nois_reduction = (refl, omega arith)

sample_lens_modulation_opt : IsListed sample.lens_modulation_opt fp_lens_modulation
unfolding has_value fp_lens_modulation
sample_lens_modulation_opt = (refl, omega arith)

sample_color_space : IsListed sample.color_space fp_color_space
unfolding has_value fp_color_space
sample_color_space = (refl, omega arith)

sample_black_image_tone : IsListed sample.black_image_tone fp_range_mono_shift_warm_cold
unfolding has_value fp_range_mono_shift_warm_cold
sample_black_image_tone = (refl, omega arith)

sample_color_chrome_blue : IsListed sample.color_chrome_blue fp_color_chrome_blue
unfolding has_value fp_color_chrome_blue
sample_color_chrome_blue = (refl, omega arith)

sample_monochromatic_color_rg : IsListed sample.monochromatic_color_rg fp_range_mono_green_magenta
unfolding has_value fp_range_mono_green_magenta
sample_monochromatic_color_rg = (refl, omega arith)

sample_clarity : IsListed sample.clarity fp_clarity
unfolding has_value fp_clarity
sample_clarity = (refl, omega arith)

sample-IsPackable : IsPackable sample
sample-IsPackable = record {
  shooting_condition = sample_shooting_condition;
  file_type = sample_file_type;
  image_size = sample_image_size;
  image_quality = sample_image_quality;
  exposure_bias = sample_exposure_bias;
  dynamic_range = sample_dynamic_range;
  wide_d_range = sample_wide_d_range;
  film_simulation = sample_film_simulation;
  grain_effect = sample_grain_effect;
  grain_effect_size = sample_grain_effect_size;
  chrome_effect = sample_chrome_effect;
  wb_shoot_cond = sample_wb_shoot_cond;
  white_balance = sample_white_balance;
  wb_shift_r = sample_wb_shift_r;
  wb_shift_b = sample_wb_shift_b;
  wb_color_temp = sample_wb_color_temp;
  highlight_tone = sample_highlight_tone;
  shadow_tone = sample_shadow_tone;
  color = sample_color;
  sharpness = sample_sharpness;
  nois_reduction = sample_nois_reduction;
  lens_modulation_opt = sample_lens_modulation_opt;
  color_space = sample_color_space;
  black_image_tone = sample_black_image_tone;
  color_chrome_blue = sample_color_chrome_blue;
  monochromatic_color_rg = sample_monochromatic_color_rg;
  clarity = sample_clarity;
  grain_off = λ e. omega arith;
}

abbrev no_junk : D185Prop → ℕ
no_junk p = 0

parse-create_d185_example :
    (bin : List ℕ) × (fp_create_d185 sample no_junk 7 1024 ≡ some (bin, success))
    × (length bin ≡ 629)
    × (fp_parse_d185 bin 629 zeroed ≡ some (image sample, success))
parse-create_d185_example =
    parse-create_d185 sample zeroed no_junk 7 1024 sample-IsPackable (omega arith) (omega arith)

create_d185_overflow_example : fp_create_d185 sample no_junk 7 628 ≡ none
create_d185_overflow_example = create_d185_overflow sample no_junk 7 sample-IsPackable

parse_d185_in_bounds_example :
    (r : FujiProfile × Status) × (fp_parse_d185 (29 ∷ 0 ∷ 3 ∷ replicate 700 255) 700 zeroed
      ≡ some r)
parse_d185_in_bounds_example =
    parse_d185_in_bounds (29 ∷ 0 ∷ 3 ∷ replicate 700 255) 700 zeroed
      (omega (arith, length-replicate {A = ℕ} 700 255))
