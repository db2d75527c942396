-- ===== src/Fp/Xml/Readable.antt =====
-- The table-backed fields that `fp_parse_fp1` reads (fp/src/xml.c): each is 0 or a value of its table.
use libfuji.Common.{
  ℕ, String, sym, subst, ◌≡◌, ◌⊎◌, inl, inr, refl, true, Option, none, some, List, [], ◌∷◌, arith,
}
use libfuji.Fp.Lookup.{FujiLookup, Status, has_value, validate_lookup}
use libfuji.Fp.Profile.{FujiProfile}
use libfuji.Fp.Tables.{
  fp_chrome_effect, fp_color_chrome_blue, fp_color_temp, fp_exposure_bias, fp_file_type,
  fp_film_sim, fp_grain_effect, fp_grain_effect_size, fp_image_quality, fp_image_size,
  fp_noise_reduction, fp_on_off, fp_range, fp_white_balance_mode,
}
use libfuji.Fp.Xml.Keeps.{parse_fp1-keeps}
use libfuji.Fp.Xml.Props.{XmlKey, parse_tag, parse_wb_shift, parse_iop_code, parse_dynamic_range}
use libfuji.Fp.Xml.Profile.{
  XmlRoot, fp_parse_fp1, sanitize_parsed_conv_profile, sanitize_white_balance, sanitize_hdr,
  sanitize_file_type, sanitize_grain, sanitize_color,
}

-- What `copy_value_if_valid` accepts.
abbrev pub IsAccepted : ℕ → List FujiLookup → Type 0
IsAccepted v tbl = (v ≡ 0) ⊎ (has_value v tbl ≡ true)

pub record IsReadable (fp : FujiProfile) : Type 0 where
  pub file_type : IsAccepted fp.file_type fp_file_type
  pub image_size : IsAccepted fp.image_size fp_image_size
  pub image_quality : IsAccepted fp.image_quality fp_image_quality
  pub exposure_bias : IsAccepted fp.exposure_bias fp_exposure_bias
  pub chrome_effect : IsAccepted fp.chrome_effect fp_chrome_effect
  pub white_balance : IsAccepted fp.white_balance fp_white_balance_mode
  pub wb_color_temp : IsAccepted fp.wb_color_temp fp_color_temp
  pub color : IsAccepted fp.color fp_range
  pub sharpness : IsAccepted fp.sharpness fp_range
  pub nois_reduction : IsAccepted fp.nois_reduction fp_noise_reduction
  pub film_simulation : IsAccepted fp.film_simulation fp_film_sim
  pub grain_effect : IsAccepted fp.grain_effect fp_grain_effect
  pub grain_effect_size : IsAccepted fp.grain_effect_size fp_grain_effect_size
  pub wb_shoot_cond : IsAccepted fp.wb_shoot_cond fp_on_off
  pub color_chrome_blue : IsAccepted fp.color_chrome_blue fp_color_chrome_blue

validate-old_or_listed :
    (str : String) (old : ℕ) (tbl : List FujiLookup)
    → ((validate_lookup str old tbl).0 ≡ old)
      ⊎ (has_value (validate_lookup str old tbl).0 tbl ≡ true)
unfolding validate_lookup has_value
validate-old_or_listed str old [] = inl refl
validate-old_or_listed str old (r ∷ tbl) = ground (arith, validate-old_or_listed str old tbl)

validate-IsAccepted :
    (str : String) (old : ℕ) (tbl : List FujiLookup)
    → IsAccepted old tbl
    → IsAccepted (validate_lookup str old tbl).0 tbl
validate-IsAccepted str old tbl h = elim (validate-old_or_listed str old tbl) [
  | inl e ↦ subst (λ v. IsAccepted v tbl) (sym e) h
  | inr e ↦ inr e
]

parse_tag-IsReadable :
    (fp : FujiProfile) (tag : XmlKey) (value : Option String)
    → IsReadable fp
    → IsReadable (parse_tag fp tag value).0
unfolding parse_tag parse_wb_shift parse_iop_code parse_dynamic_range
parse_tag-IsReadable fp tag none h = record {
  file_type = ground (arith, h.file_type);
  image_size = ground (arith, h.image_size);
  image_quality = ground (arith, h.image_quality);
  exposure_bias = ground (arith, h.exposure_bias);
  chrome_effect = ground (arith, h.chrome_effect);
  white_balance = ground (arith, h.white_balance);
  wb_color_temp = ground (arith, h.wb_color_temp);
  color = ground (arith, h.color);
  sharpness = ground (arith, h.sharpness);
  nois_reduction = ground (arith, h.nois_reduction);
  film_simulation = ground (arith, h.film_simulation);
  grain_effect = ground (arith, h.grain_effect);
  grain_effect_size = ground (arith, h.grain_effect_size);
  wb_shoot_cond = ground (arith, h.wb_shoot_cond);
  color_chrome_blue = ground (arith, h.color_chrome_blue);
}
parse_tag-IsReadable fp tag (some str) h = record {
  file_type =
      ground (arith, h.file_type, validate-IsAccepted str fp.file_type fp_file_type h.file_type);
  image_size =
      ground
        (arith, h.image_size, validate-IsAccepted str fp.image_size fp_image_size h.image_size);
  image_quality = ground (
    arith,
    h.image_quality,
    validate-IsAccepted str fp.image_quality fp_image_quality h.image_quality,
  );
  exposure_bias = ground (
    arith,
    h.exposure_bias,
    validate-IsAccepted str fp.exposure_bias fp_exposure_bias h.exposure_bias,
  );
  chrome_effect = ground (
    arith,
    h.chrome_effect,
    validate-IsAccepted str fp.chrome_effect fp_chrome_effect h.chrome_effect,
  );
  white_balance = ground (
    arith,
    h.white_balance,
    validate-IsAccepted str fp.white_balance fp_white_balance_mode h.white_balance,
  );
  wb_color_temp = ground (
    arith,
    h.wb_color_temp,
    validate-IsAccepted str fp.wb_color_temp fp_color_temp h.wb_color_temp,
  );
  color = ground (arith, h.color, validate-IsAccepted str fp.color fp_range h.color);
  sharpness =
      ground (arith, h.sharpness, validate-IsAccepted str fp.sharpness fp_range h.sharpness);
  nois_reduction = ground (
    arith,
    h.nois_reduction,
    validate-IsAccepted str fp.nois_reduction fp_noise_reduction h.nois_reduction,
  );
  film_simulation = ground (
    arith,
    h.film_simulation,
    validate-IsAccepted str fp.film_simulation fp_film_sim h.film_simulation,
  );
  grain_effect = ground (
    arith,
    h.grain_effect,
    validate-IsAccepted str fp.grain_effect fp_grain_effect h.grain_effect,
  );
  grain_effect_size = ground (
    arith,
    h.grain_effect_size,
    validate-IsAccepted str fp.grain_effect_size fp_grain_effect_size h.grain_effect_size,
  );
  wb_shoot_cond =
      ground (
        arith,
        h.wb_shoot_cond,
        validate-IsAccepted str fp.wb_shoot_cond fp_on_off h.wb_shoot_cond,
      );
  color_chrome_blue = ground (
    arith,
    h.color_chrome_blue,
    validate-IsAccepted str fp.color_chrome_blue fp_color_chrome_blue h.color_chrome_blue,
  );
}

-- Sanitizing leaves a field, or clears it.
sanitize-keeps_or_clears :
    (fp : FujiProfile)
    → (((sanitize_parsed_conv_profile fp).0.file_type ≡ fp.file_type)
        ⊎ ((sanitize_parsed_conv_profile fp).0.file_type ≡ 0))
      × (((sanitize_parsed_conv_profile fp).0.image_size ≡ fp.image_size)
          ⊎ ((sanitize_parsed_conv_profile fp).0.image_size ≡ 0))
      × (((sanitize_parsed_conv_profile fp).0.image_quality ≡ fp.image_quality)
          ⊎ ((sanitize_parsed_conv_profile fp).0.image_quality ≡ 0))
      × (((sanitize_parsed_conv_profile fp).0.exposure_bias ≡ fp.exposure_bias)
          ⊎ ((sanitize_parsed_conv_profile fp).0.exposure_bias ≡ 0))
      × (((sanitize_parsed_conv_profile fp).0.chrome_effect ≡ fp.chrome_effect)
          ⊎ ((sanitize_parsed_conv_profile fp).0.chrome_effect ≡ 0))
      × (((sanitize_parsed_conv_profile fp).0.white_balance ≡ fp.white_balance)
          ⊎ ((sanitize_parsed_conv_profile fp).0.white_balance ≡ 1))
      × (((sanitize_parsed_conv_profile fp).0.wb_color_temp ≡ fp.wb_color_temp)
          ⊎ ((sanitize_parsed_conv_profile fp).0.wb_color_temp ≡ 0))
      × (((sanitize_parsed_conv_profile fp).0.color ≡ fp.color)
          ⊎ ((sanitize_parsed_conv_profile fp).0.color ≡ 0))
      × (((sanitize_parsed_conv_profile fp).0.sharpness ≡ fp.sharpness)
          ⊎ ((sanitize_parsed_conv_profile fp).0.sharpness ≡ 0))
      × (((sanitize_parsed_conv_profile fp).0.nois_reduction ≡ fp.nois_reduction)
          ⊎ ((sanitize_parsed_conv_profile fp).0.nois_reduction ≡ 0))
      × (((sanitize_parsed_conv_profile fp).0.film_simulation ≡ fp.film_simulation)
          ⊎ ((sanitize_parsed_conv_profile fp).0.film_simulation ≡ 0))
      × (((sanitize_parsed_conv_profile fp).0.grain_effect ≡ fp.grain_effect)
          ⊎ ((sanitize_parsed_conv_profile fp).0.grain_effect ≡ 0))
      × (((sanitize_parsed_conv_profile fp).0.grain_effect_size ≡ fp.grain_effect_size)
          ⊎ ((sanitize_parsed_conv_profile fp).0.grain_effect_size ≡ 0))
      × (((sanitize_parsed_conv_profile fp).0.wb_shoot_cond ≡ fp.wb_shoot_cond)
          ⊎ ((sanitize_parsed_conv_profile fp).0.wb_shoot_cond ≡ 0))
      × (((sanitize_parsed_conv_profile fp).0.color_chrome_blue ≡ fp.color_chrome_blue)
          ⊎ ((sanitize_parsed_conv_profile fp).0.color_chrome_blue ≡ 0))
unfolding sanitize_parsed_conv_profile sanitize_white_balance sanitize_hdr sanitize_file_type
    sanitize_grain sanitize_color
sanitize-keeps_or_clears fp = (
  ground arith,
  ground arith,
  ground arith,
  ground arith,
  ground arith,
  ground arith,
  ground arith,
  ground arith,
  ground arith,
  ground arith,
  ground arith,
  ground arith,
  ground arith,
  ground arith,
  ground arith,
)

cleared :
    (new old v : ℕ) (tbl : List FujiLookup)
    → (new ≡ old) ⊎ (new ≡ v)
    → IsAccepted v tbl
    → IsAccepted old tbl
    → IsAccepted new tbl
cleared new old v tbl (inl e) k h = subst (λ n. IsAccepted n tbl) (sym e) h
cleared new old v tbl (inr e) k h = subst (λ n. IsAccepted n tbl) (sym e) k

invalid_mode : IsAccepted 1 fp_white_balance_mode
unfolding has_value fp_white_balance_mode
invalid_mode = inr refl

sanitize-IsReadable :
    (fp : FujiProfile) → IsReadable fp → IsReadable (sanitize_parsed_conv_profile fp).0
sanitize-IsReadable fp h =
    let k = sanitize-keeps_or_clears fp in
    record {
      file_type = cleared _ fp.file_type _ fp_file_type k.0 (inl refl) h.file_type;
      image_size = cleared _ fp.image_size _ fp_image_size k.1 (inl refl) h.image_size;
      image_quality = cleared _ fp.image_quality _ fp_image_quality k.2 (inl refl) h.image_quality;
      exposure_bias = cleared _ fp.exposure_bias _ fp_exposure_bias k.3 (inl refl) h.exposure_bias;
      chrome_effect = cleared _ fp.chrome_effect _ fp_chrome_effect k.4 (inl refl) h.chrome_effect;
      white_balance =
          cleared _ fp.white_balance _ fp_white_balance_mode k.5 invalid_mode h.white_balance;
      wb_color_temp = cleared _ fp.wb_color_temp _ fp_color_temp k.6 (inl refl) h.wb_color_temp;
      color = cleared _ fp.color _ fp_range k.7 (inl refl) h.color;
      sharpness = cleared _ fp.sharpness _ fp_range k.8 (inl refl) h.sharpness;
      nois_reduction =
          cleared _ fp.nois_reduction _ fp_noise_reduction k.9 (inl refl) h.nois_reduction;
      film_simulation =
          cleared _ fp.film_simulation _ fp_film_sim k.10 (inl refl) h.film_simulation;
      grain_effect = cleared _ fp.grain_effect _ fp_grain_effect k.11 (inl refl) h.grain_effect;
      grain_effect_size =
          cleared _ fp.grain_effect_size _ fp_grain_effect_size k.12 (inl refl) h.grain_effect_size;
      wb_shoot_cond = cleared _ fp.wb_shoot_cond _ fp_on_off k.13 (inl refl) h.wb_shoot_cond;
      color_chrome_blue =
          cleared _ fp.color_chrome_blue _ fp_color_chrome_blue k.14 (inl refl) h.color_chrome_blue;
    }

-- Whatever the file, in the profile that is read the file type, the image's size and quality, the
-- exposure bias, the chrome effect, the white balance, the colour temperature, the colour, the
-- sharpness, the noise reduction, the film simulation, the grain effect and its size, the shooting
-- condition of the white balance and the colour chrome blue are each 0 or a value of their table.
pub parse_fp1-IsReadable :
    (ezxml_parse_file : String → Option XmlRoot) (path : String) (fp : FujiProfile) (rc : Status)
    → fp_parse_fp1 ezxml_parse_file path ≡ some (fp, rc)
    → IsReadable fp
parse_fp1-IsReadable = parse_fp1-keeps IsReadable parse_tag-IsReadable sanitize-IsReadable (λ v.
    record {
      file_type = inl refl;
      image_size = inl refl;
      image_quality = inl refl;
      exposure_bias = inl refl;
      chrome_effect = inl refl;
      white_balance = inl refl;
      wb_color_temp = inl refl;
      color = inl refl;
      sharpness = inl refl;
      nois_reduction = inl refl;
      film_simulation = inl refl;
      grain_effect = inl refl;
      grain_effect_size = inl refl;
      wb_shoot_cond = inl refl;
      color_chrome_blue = inl refl;
    })
