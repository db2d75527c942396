-- ===== src/Fp/Xml/Listed.antt =====
-- Which values a profile can be dumped with (fp/src/xml.c: `fp_dump_struct`).
use libfuji.Common.{ℕ, String, Bool, ◌≡◌, ◌↔◌, refl, true, List, [], ◌∷◌, Option, none, some, arith}
use libfuji.Fp.Tables.{
  fp_bool, fp_chrome_effect, fp_clarity, fp_color_chrome_blue, fp_color_space, fp_color_temp,
  fp_drange, fp_drange_priority, fp_exposure_bias, fp_file_type, fp_film_sim, fp_grain_effect,
  fp_grain_effect_size, fp_hdr, fp_image_quality, fp_image_size, fp_lens_modulation,
  fp_noise_reduction, fp_on_off, fp_range, fp_range_mono_green_magenta,
  fp_range_mono_shift_warm_cold, fp_range_wb_shift, fp_struct_ver, fp_white_balance_mode,
  fp_white_balance_shoot_cond,
}
use libfuji.Fp.Lookup.{success, FujiLookup, has_value}
use libfuji.Fp.Profile.{FujiProfile, fp_get_highlight_tone, fp_get_shadow_tone}
use libfuji.Fp.Xml.Dump.{DumpCall, dump_calls, fp_dump_struct, is_dumpable, all_dumpable}
use libfuji.Fp.Xml.Dumped.{dump_all-listed}

-- Every field but the four that are printed as numbers has a value of its table.
pub record IsListed (fp : FujiProfile) : Type 0 where
  pub struct_ver : has_value fp.struct_ver fp_struct_ver ≡ true
  pub editable : has_value fp.editable fp_bool ≡ true
  pub file_type : has_value fp.file_type fp_file_type ≡ true
  pub image_size : has_value fp.image_size fp_image_size ≡ true
  pub image_quality : has_value fp.image_quality fp_image_quality ≡ true
  pub exposure_bias : has_value fp.exposure_bias fp_exposure_bias ≡ true
  pub dynamic_range : has_value fp.dynamic_range fp_drange ≡ true
  pub wide_d_range : has_value fp.wide_d_range fp_drange_priority ≡ true
  pub film_simulation : has_value fp.film_simulation fp_film_sim ≡ true
  pub black_image_tone : has_value fp.black_image_tone fp_range_mono_shift_warm_cold ≡ true
  pub monochromatic_color_rg :
      has_value fp.monochromatic_color_rg fp_range_mono_green_magenta ≡ true
  pub grain_effect : has_value fp.grain_effect fp_grain_effect ≡ true
  pub grain_effect_size : has_value fp.grain_effect_size fp_grain_effect_size ≡ true
  pub chrome_effect : has_value fp.chrome_effect fp_chrome_effect ≡ true
  pub color_chrome_blue : has_value fp.color_chrome_blue fp_color_chrome_blue ≡ true
  pub smooth_skin_effect : has_value fp.smooth_skin_effect fp_on_off ≡ true
  pub wb_shoot_cond : has_value fp.wb_shoot_cond fp_white_balance_shoot_cond ≡ true
  pub white_balance : has_value fp.white_balance fp_white_balance_mode ≡ true
  pub wb_shift_r : has_value fp.wb_shift_r fp_range_wb_shift ≡ true
  pub wb_shift_b : has_value fp.wb_shift_b fp_range_wb_shift ≡ true
  pub wb_color_temp : has_value fp.wb_color_temp fp_color_temp ≡ true
  pub highlight_tone : has_value fp.highlight_tone (fp_get_highlight_tone fp) ≡ true
  pub shadow_tone : has_value fp.shadow_tone (fp_get_shadow_tone fp) ≡ true
  pub color : has_value fp.color fp_range ≡ true
  pub sharpness : has_value fp.sharpness fp_range ≡ true
  pub nois_reduction : has_value fp.nois_reduction fp_noise_reduction ≡ true
  pub clarity : has_value fp.clarity fp_clarity ≡ true
  pub lens_modulation_opt : has_value fp.lens_modulation_opt fp_lens_modulation ≡ true
  pub color_space : has_value fp.color_space fp_color_space ≡ true
  pub hdr : has_value fp.hdr fp_hdr ≡ true
  pub digital_tele_conv : has_value fp.digital_tele_conv fp_on_off ≡ true
  pub portrait_enhancer : has_value fp.portrait_enhancer fp_on_off ≡ true

HasListed : ℕ → Option (List FujiLookup) → Type 0
HasListed value none = Unit
HasListed value (some tbl) = has_value value tbl ≡ true

AllListed : List DumpCall → Type 0
AllListed [] = Unit
AllListed (c ∷ cs) = HasListed c.value c.tbl × AllListed cs

call-HasListed : (c : DumpCall) → (is_dumpable c ≡ true) ↔ HasListed c.value c.tbl
unfolding is_dumpable HasListed
call-HasListed c = go c.tbl
  where
    go :
        (o : Option (List FujiLookup))
        → (elim o as (λ x. Bool) [ none ↦ true | some tbl ↦ has_value c.value tbl ] ≡ true)
          ↔ HasListed c.value o
    go none = ((λ e. tt), λ h. refl)
    go (some tbl) = ((λ e. e), λ e. e)

calls-AllListed : (cs : List DumpCall) → (all_dumpable cs ≡ true) ↔ AllListed cs
unfolding all_dumpable AllListed
calls-AllListed [] = ((λ e. tt), λ h. refl)
calls-AllListed (c ∷ cs) =
    let (f, g) = call-HasListed c in
    let (f', g') = calls-AllListed cs in
    (
      (λ e. (f (ground (arith, e)), f' (ground (arith, e)))),
      λ h. let a = g h.0 in let b = g' h.1 in ground (arith, a, b),
    )

all-IsListed : (fp : FujiProfile) → AllListed (dump_calls fp) ↔ IsListed fp
unfolding dump_calls AllListed HasListed
all-IsListed fp = (
  (λ p. record {
    struct_ver = p.0;
    editable = p.1.1.1.0;
    file_type = p.1.1.1.1.1.0;
    image_size = p.1.1.1.1.1.1.0;
    image_quality = p.1.1.1.1.1.1.1.1.0;
    exposure_bias = p.1.1.1.1.1.1.1.1.1.0;
    dynamic_range = p.1.1.1.1.1.1.1.1.1.1.0;
    wide_d_range = p.1.1.1.1.1.1.1.1.1.1.1.0;
    film_simulation = p.1.1.1.1.1.1.1.1.1.1.1.1.0;
    black_image_tone = p.1.1.1.1.1.1.1.1.1.1.1.1.1.0;
    monochromatic_color_rg = p.1.1.1.1.1.1.1.1.1.1.1.1.1.1.0;
    grain_effect = p.1.1.1.1.1.1.1.1.1.1.1.1.1.1.1.0;
    grain_effect_size = p.1.1.1.1.1.1.1.1.1.1.1.1.1.1.1.1.0;
    chrome_effect = p.1.1.1.1.1.1.1.1.1.1.1.1.1.1.1.1.1.0;
    color_chrome_blue = p.1.1.1.1.1.1.1.1.1.1.1.1.1.1.1.1.1.1.0;
    smooth_skin_effect = p.1.1.1.1.1.1.1.1.1.1.1.1.1.1.1.1.1.1.1.0;
    wb_shoot_cond = p.1.1.1.1.1.1.1.1.1.1.1.1.1.1.1.1.1.1.1.1.0;
    white_balance = p.1.1.1.1.1.1.1.1.1.1.1.1.1.1.1.1.1.1.1.1.1.0;
    wb_shift_r = p.1.1.1.1.1.1.1.1.1.1.1.1.1.1.1.1.1.1.1.1.1.1.0;
    wb_shift_b = p.1.1.1.1.1.1.1.1.1.1.1.1.1.1.1.1.1.1.1.1.1.1.1.0;
    wb_color_temp = p.1.1.1.1.1.1.1.1.1.1.1.1.1.1.1.1.1.1.1.1.1.1.1.1.0;
    highlight_tone = p.1.1.1.1.1.1.1.1.1.1.1.1.1.1.1.1.1.1.1.1.1.1.1.1.1.0;
    shadow_tone = p.1.1.1.1.1.1.1.1.1.1.1.1.1.1.1.1.1.1.1.1.1.1.1.1.1.1.0;
    color = p.1.1.1.1.1.1.1.1.1.1.1.1.1.1.1.1.1.1.1.1.1.1.1.1.1.1.1.0;
    sharpness = p.1.1.1.1.1.1.1.1.1.1.1.1.1.1.1.1.1.1.1.1.1.1.1.1.1.1.1.1.0;
    nois_reduction = p.1.1.1.1.1.1.1.1.1.1.1.1.1.1.1.1.1.1.1.1.1.1.1.1.1.1.1.1.1.0;
    clarity = p.1.1.1.1.1.1.1.1.1.1.1.1.1.1.1.1.1.1.1.1.1.1.1.1.1.1.1.1.1.1.0;
    lens_modulation_opt = p.1.1.1.1.1.1.1.1.1.1.1.1.1.1.1.1.1.1.1.1.1.1.1.1.1.1.1.1.1.1.1.0;
    color_space = p.1.1.1.1.1.1.1.1.1.1.1.1.1.1.1.1.1.1.1.1.1.1.1.1.1.1.1.1.1.1.1.1.0;
    hdr = p.1.1.1.1.1.1.1.1.1.1.1.1.1.1.1.1.1.1.1.1.1.1.1.1.1.1.1.1.1.1.1.1.1.0;
    digital_tele_conv = p.1.1.1.1.1.1.1.1.1.1.1.1.1.1.1.1.1.1.1.1.1.1.1.1.1.1.1.1.1.1.1.1.1.1.0;
    portrait_enhancer = p.1.1.1.1.1.1.1.1.1.1.1.1.1.1.1.1.1.1.1.1.1.1.1.1.1.1.1.1.1.1.1.1.1.1.1.0;
  }),
  λ h. (
    h.struct_ver,
    (
      tt,
      (
        tt,
        (
          h.editable,
          (
            tt,
            (
              h.file_type,
              (
                h.image_size,
                (
                  tt,
                  (
                    h.image_quality,
                    (
                      h.exposure_bias,
                      (
                        h.dynamic_range,
                        (
                          h.wide_d_range,
                          (
                            h.film_simulation,
                            (
                              h.black_image_tone,
                              (
                                h.monochromatic_color_rg,
                                (
                                  h.grain_effect,
                                  (
                                    h.grain_effect_size,
                                    (
                                      h.chrome_effect,
                                      (
                                        h.color_chrome_blue,
                                        (
                                          h.smooth_skin_effect,
                                          (
                                            h.wb_shoot_cond,
                                            (
                                              h.white_balance,
                                              (
                                                h.wb_shift_r,
                                                (
                                                  h.wb_shift_b,
                                                  (
                                                    h.wb_color_temp,
                                                    (
                                                      h.highlight_tone,
                                                      (
                                                        h.shadow_tone,
                                                        (
                                                          h.color,
                                                          (
                                                            h.sharpness,
                                                            (
                                                            h.nois_reduction,
                                                            (
                                                            h.clarity,
                                                            (
                                                            h.lens_modulation_opt,
                                                            (
                                                            h.color_space,
                                                            (
                                                            h.hdr,
                                                            (
                                                            h.digital_tele_conv,
                                                            (h.portrait_enhancer, tt),
                                                            ),
                                                            ),
                                                            ),
                                                            ),
                                                            ),
                                                            ),
                                                          ),
                                                        ),
                                                      ),
                                                    ),
                                                  ),
                                                ),
                                              ),
                                            ),
                                          ),
                                        ),
                                      ),
                                    ),
                                  ),
                                ),
                              ),
                            ),
                          ),
                        ),
                      ),
                    ),
                  ),
                ),
              ),
            ),
          ),
        ),
      ),
    ),
  ),
)

-- The dump of a profile succeeds exactly if each of the 32 fields of `IsListed`, all but the IOP code,
-- the tether condition code, the shooting condition and the rotation angle, has a value of its
-- table: an early error is not forgotten by the calls after it.
pub dump_struct_succeeds_iff :
    (print_d print_04x : ℕ → String) (fp : FujiProfile)
    → ((fp_dump_struct print_d print_04x fp).1 ≡ success) ↔ IsListed fp
unfolding fp_dump_struct
dump_struct_succeeds_iff print_d print_04x fp =
    let (to, from) = dump_all-listed print_d (dump_calls fp) success in
    let (f, g) = calls-AllListed (dump_calls fp) in
    let (h, k) = all-IsListed fp in ((λ e. h (f (to e).1)), λ l. from (refl, g (k l)))
