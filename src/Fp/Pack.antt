-- ===== src/Fp/Pack.antt =====
-- From a profile file to the camera's structure, as lib/fuji_usb.c does it: `fp_parse_fp1`
-- (fp/src/xml.c), `fp_apply_profile` (fp/src/data.c) onto the profile of the loaded photo, and
-- `get_prop` (fp/src/d185.c) on the result.
use libfuji.Common.{
  neg32, ℕ, String, ◌≡◌, ◌≢◌, ◌⊎◌, inl, refl, true, false, Bool, Option, some, List, [], ◌∷◌, arith,
}
use libfuji.Fp.Lookup.{FujiLookup, Status, success, failure, has_value, copy_value_if_valid}
use libfuji.Fp.Profile.{FujiProfile, fp_apply_profile}
use libfuji.Fp.Tables.{
  fp_drange, fp_shooting_condition, fp_on_off, fp_white_balance_shoot_cond, fp_range_wb_shift,
}
use libfuji.Fp.D185.Props.{D185Prop, get_prop}
use libfuji.Fp.Xml.Props.{parse_wb_shift, within_ten}
use libfuji.Fp.Xml.Profile.{
  XmlRoot, fp_parse_fp1, sanitize_parsed_conv_profile, sanitize_white_balance, sanitize_hdr,
  sanitize_file_type, sanitize_grain, sanitize_color,
}
use libfuji.Fp.Xml.Readable.{IsAccepted, IsReadable, parse_fp1-IsReadable}
use libfuji.Fp.Xml.Unset.{parse_fp1-IsUnset}

-- The properties whose fields `fp_apply_profile` takes from the file and whose tables the reader of
-- the file has already consulted, or that it leaves at 0.
unfoldable pub is_settled : D185Prop → Bool
is_settled D185Prop.shooting_condition = true
is_settled D185Prop.file_type = true
is_settled D185Prop.image_size = true
is_settled D185Prop.image_quality = true
is_settled D185Prop.exposure_bias = true
is_settled D185Prop.dynamic_range = false
is_settled D185Prop.wide_d_range = false
is_settled D185Prop.film_simulation = true
is_settled D185Prop.grain_effect_and_size = true
is_settled D185Prop.chrome_effect = true
is_settled D185Prop.white_balance_shoot_cond = true
is_settled D185Prop.white_balance_mode = true
is_settled D185Prop.white_balance_shift_red_green = false
is_settled D185Prop.white_balance_shift_blue_yellow = true
is_settled D185Prop.white_balance_color_temp = true
is_settled D185Prop.highlight_tone = false
is_settled D185Prop.shadow_tone = false
is_settled D185Prop.color = true
is_settled D185Prop.sharpness = true
is_settled D185Prop.noise_reduction = true
is_settled D185Prop.lens_modulation_optimization = false
is_settled D185Prop.color_space = false
is_settled D185Prop.black_image_tone = false
is_settled D185Prop.unknown_24 = true
is_settled D185Prop.color_chrome_blue = true
is_settled D185Prop.monochromatic_color_rg = false
is_settled D185Prop.clarity = false
is_settled D185Prop.unknown_28 = true
is_settled D185Prop.unknown_29 = true

pub copy-accepted :
    (v out : ℕ) (tbl : List FujiLookup)
    → IsAccepted v tbl
    → (copy_value_if_valid v out tbl).1 ≡ success
unfolding copy_value_if_valid has_value
copy-accepted v out [] h = ground arith
copy-accepted v out (r ∷ tbl) h = ground (arith, copy-accepted v out tbl)

copy-rejected :
    (v out : ℕ) (tbl : List FujiLookup)
    → v ≢ 0
    → has_value v tbl ≡ false
    → (copy_value_if_valid v out tbl).1 ≡ failure
unfolding copy_value_if_valid has_value
copy-rejected v out [] n h = ground arith
copy-rejected v out (r ∷ tbl) n h = ground (arith, copy-rejected v out tbl)

-- Without a row for 0, the value 0 is accepted and nothing is written.
copy-zero_absent :
    (out : ℕ) (tbl : List FujiLookup)
    → has_value 0 tbl ≡ false
    → copy_value_if_valid 0 out tbl ≡ (out, success)
unfolding copy_value_if_valid has_value
copy-zero_absent out [] h = refl
copy-zero_absent out (r ∷ tbl) h = ground (arith, copy-zero_absent out tbl)

shoot_cond-IsAccepted : (v : ℕ) → IsAccepted v fp_on_off → IsAccepted v fp_white_balance_shoot_cond
unfolding has_value fp_on_off fp_white_balance_shoot_cond
shoot_cond-IsAccepted v h = ground arith

settled-get_prop :
    (fp to : FujiProfile)
    → IsReadable fp
    → fp.shooting_condition ≡ 0
    → fp.wb_shift_b ≡ 0
    → (p : D185Prop) (value value_size : ℕ) → is_settled p ≡ true
    → (get_prop (fp_apply_profile fp to) p value value_size).1 ≡ success
unfolding is_settled get_prop fp_apply_profile
settled-get_prop fp to r s b D185Prop.shooting_condition v w h = copy-accepted _ v _ (inl s)
settled-get_prop fp to r s b D185Prop.file_type v w h = copy-accepted _ v _ r.file_type
settled-get_prop fp to r s b D185Prop.image_size v w h = copy-accepted _ v _ r.image_size
settled-get_prop fp to r s b D185Prop.image_quality v w h = copy-accepted _ v _ r.image_quality
settled-get_prop fp to r s b D185Prop.exposure_bias v w h = copy-accepted _ v _ r.exposure_bias
settled-get_prop fp to r s b D185Prop.film_simulation v w h = copy-accepted _ v _ r.film_simulation
settled-get_prop fp to r s b D185Prop.grain_effect_and_size v w h =
    rw (copy-accepted _ v _ r.grain_effect) (copy-accepted _ w _ r.grain_effect_size)
settled-get_prop fp to r s b D185Prop.chrome_effect v w h = copy-accepted _ v _ r.chrome_effect
settled-get_prop fp to r s b D185Prop.white_balance_shoot_cond v w h =
    copy-accepted _ v _ (shoot_cond-IsAccepted _ r.wb_shoot_cond)
settled-get_prop fp to r s b D185Prop.white_balance_mode v w h = copy-accepted _ v _ r.white_balance
settled-get_prop fp to r s b D185Prop.white_balance_shift_blue_yellow v w h =
    copy-accepted _ v _ (inl b)
settled-get_prop fp to r s b D185Prop.white_balance_color_temp v w h =
    copy-accepted _ v _ r.wb_color_temp
settled-get_prop fp to r s b D185Prop.color v w h = copy-accepted _ v _ r.color
settled-get_prop fp to r s b D185Prop.sharpness v w h = copy-accepted _ v _ r.sharpness
settled-get_prop fp to r s b D185Prop.noise_reduction v w h = copy-accepted _ v _ r.nois_reduction
settled-get_prop fp to r s b D185Prop.unknown_24 v w h = refl
settled-get_prop fp to r s b D185Prop.color_chrome_blue v w h =
    copy-accepted _ v _ r.color_chrome_blue
settled-get_prop fp to r s b D185Prop.unknown_28 v w h = refl
settled-get_prop fp to r s b D185Prop.unknown_29 v w h = refl
settled-get_prop fp to r s b _ v w h = ground arith

-- Whatever profile file was read, and whatever profile it is applied to, packing does not fail at
-- any settled property.
pub apply_fp1-get_prop :
    (ezxml_parse_file : String → Option XmlRoot) (path : String) (fp to : FujiProfile) (rc : Status)
    (p : D185Prop) (value value_size : ℕ)
    → fp_parse_fp1 ezxml_parse_file path ≡ some (fp, rc)
    → is_settled p ≡ true
    → (get_prop (fp_apply_profile fp to) p value value_size).1 ≡ success
apply_fp1-get_prop ezxml_parse_file path fp to rc p value value_size e h =
    let (s, b, _) = parse_fp1-IsUnset ezxml_parse_file path fp rc e in
    settled-get_prop fp to (parse_fp1-IsReadable ezxml_parse_file path fp rc e) s b p value
      value_size h

no_zero_condition : has_value 0 fp_shooting_condition ≡ false
unfolding has_value fp_shooting_condition
no_zero_condition = refl

-- Whatever profile file was read, the shooting condition that is packed from it is the content of the
-- variable that `get_prop` was to fill, which the caller has not initialised.
pub apply_fp1-shooting_condition :
    (ezxml_parse_file : String → Option XmlRoot) (path : String) (fp to : FujiProfile) (rc : Status)
    (value value_size : ℕ)
    → fp_parse_fp1 ezxml_parse_file path ≡ some (fp, rc)
    → get_prop (fp_apply_profile fp to) D185Prop.shooting_condition value value_size
      ≡ (value, success)
unfolding get_prop fp_apply_profile
apply_fp1-shooting_condition ezxml_parse_file path fp to rc value value_size e =
    rw (parse_fp1-IsUnset ezxml_parse_file path fp rc e).0
      (copy-zero_absent value fp_shooting_condition no_zero_condition)

sanitized_hdr-dynamic_range :
    (fp : FujiProfile)
    → (sanitize_parsed_conv_profile fp).1 ≡ success
    → (fp.hdr ≡ 800) ⊎ (fp.hdr ≡ 801)
    → (sanitize_parsed_conv_profile fp).0.dynamic_range ≡ 800
unfolding sanitize_parsed_conv_profile sanitize_white_balance sanitize_hdr sanitize_file_type
    sanitize_grain sanitize_color
sanitized_hdr-dynamic_range fp e h = ground arith

no_range_800 : has_value 800 fp_drange ≡ false
unfolding has_value fp_drange
no_range_800 = refl

-- Where sanitizing succeeds for an HDR value of 800, plain or plus, the dynamic range that it leaves is
-- none that the packing accepts.
pub sanitized_hdr-get_prop :
    (fp to : FujiProfile) (value value_size : ℕ)
    → (sanitize_parsed_conv_profile fp).1 ≡ success
    → (fp.hdr ≡ 800) ⊎ (fp.hdr ≡ 801)
    → (get_prop
        (fp_apply_profile (sanitize_parsed_conv_profile fp).0 to)
        D185Prop.dynamic_range
        value
        value_size).1
      ≡ failure
unfolding get_prop fp_apply_profile
sanitized_hdr-get_prop fp to value value_size e h =
    rw (sanitized_hdr-dynamic_range fp e h)
      (copy-rejected 800 value fp_drange (omega arith) no_range_800)

accepted_shift :
    (v out : ℕ)
    → within_ten v ≡ true
    → (copy_value_if_valid v out fp_range_wb_shift).1 ≡ success
    → (v ≡ 0) ⊎ ((v ≡ 10) ⊎ (v ≡ neg32 10))
unfolding copy_value_if_valid fp_range_wb_shift
accepted_shift v out w h = ground arith

stored_shift :
    (fp : FujiProfile) (str : String)
    → (parse_wb_shift fp (some str)).1 ≡ success
    → within_ten (parse_wb_shift fp (some str)).0.wb_shift_r ≡ true
unfolding parse_wb_shift
stored_shift fp str e = ground arith

-- A shift that the reader accepts from a profile file is accepted by the packing only if it is -10, 0 or 10.
pub parse_wb_shift-get_prop :
    (fp to : FujiProfile) (str : String) (value value_size : ℕ)
    → (parse_wb_shift fp (some str)).1 ≡ success
    → (get_prop
        (fp_apply_profile (parse_wb_shift fp (some str)).0 to)
        D185Prop.white_balance_shift_red_green
        value
        value_size).1
      ≡ success
    → ((parse_wb_shift fp (some str)).0.wb_shift_r ≡ 0)
      ⊎ (((parse_wb_shift fp (some str)).0.wb_shift_r ≡ 10)
          ⊎ ((parse_wb_shift fp (some str)).0.wb_shift_r ≡ neg32 10))
unfolding get_prop fp_apply_profile
parse_wb_shift-get_prop fp to str value value_size e h =
    accepted_shift _ value (stored_shift fp str e) h
