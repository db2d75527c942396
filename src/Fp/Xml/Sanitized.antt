-- ===== src/Fp/Xml/Sanitized.antt =====
-- What `sanitize_parsed_conv_profile` establishes (fp/src/xml.c), step by step: each step brings its
-- own rule about and keeps those of the steps before it.
use libfuji.Common.{◌≡◌, ◌≢◌, ◌⊎◌, ◌↔◌, true, false, arith, inl, inr}
use libfuji.Fp.Lookup.{success, failure, Status-cases}
use libfuji.Fp.Profile.{FujiProfile}
use libfuji.Fp.Xml.Profile.{
  is_monochrome, sanitize_white_balance, sanitize_hdr, sanitize_file_type, sanitize_grain,
  sanitize_color, sanitize_parsed_conv_profile,
}

abbrev AsShotRule : FujiProfile → Type 0
AsShotRule fp =
    fp.wb_shoot_cond ≡ 1
    → (fp.white_balance ≡ 1) × (fp.wb_color_temp ≡ 0) × (fp.wb_shift_r ≡ 0) × (fp.wb_shift_b ≡ 0)

abbrev HdrPlusRule : FujiProfile → Type 0
HdrPlusRule fp = fp.hdr ≡ 801 → (fp.wide_d_range ≡ 3) × (fp.dynamic_range ≡ 800)

abbrev HdrRule : FujiProfile → Type 0
HdrRule fp = (fp.hdr ≡ 800) ⊎ ((fp.hdr ≡ 400) ⊎ (fp.hdr ≡ 200)) → fp.dynamic_range ≡ fp.hdr

abbrev TiffRule : FujiProfile → Type 0
TiffRule fp =
    (fp.file_type ≡ 9) ⊎ (fp.file_type ≡ 11) → (fp.image_quality ≡ 0) × (fp.image_size ≡ 0)

abbrev GrainRule : FujiProfile → Type 0
GrainRule fp = fp.grain_effect ≡ 1 → fp.grain_effect_size ≡ 0

abbrev MonochromeRule : FujiProfile → Type 0
MonochromeRule fp = is_monochrome fp.film_simulation ≡ true → fp.color ≡ 0

abbrev SepiaRule : FujiProfile → Type 0
SepiaRule fp = fp.film_simulation ≡ 10 → fp.color ≡ 0

abbrev ColourRule : FujiProfile → Type 0
ColourRule fp =
    is_monochrome fp.film_simulation ≡ false
    → (fp.monochromatic_color_rg ≡ 0) × (fp.black_image_tone ≡ 0)

-- The rules about settings that exclude one another.
pub record IsSane (fp : FujiProfile) : Type 0 where
  pub as_shot : AsShotRule fp
  pub hdr_plus : HdrPlusRule fp
  pub hdr : HdrRule fp
  pub tiff : TiffRule fp
  pub grain_off : GrainRule fp
  pub monochrome : MonochromeRule fp
  pub sepia : SepiaRule fp
  pub colour : ColourRule fp

white_balance_done : (fp : FujiProfile) → AsShotRule (sanitize_white_balance fp)
unfolding sanitize_white_balance
white_balance_done fp = ground arith

hdr_done :
    (fp : FujiProfile)
    → AsShotRule fp
    → (sanitize_hdr fp).1 ≡ success
    → AsShotRule (sanitize_hdr fp).0 × HdrPlusRule (sanitize_hdr fp).0 × HdrRule (sanitize_hdr fp).0
unfolding sanitize_hdr
hdr_done fp a h = (ground arith, ground arith, ground arith)

module _ (fp : FujiProfile) (a : AsShotRule fp) (p : HdrPlusRule fp) (d : HdrRule fp) where
  file_type_done :
      AsShotRule (sanitize_file_type fp)
      × HdrPlusRule (sanitize_file_type fp)
      × HdrRule (sanitize_file_type fp)
      × TiffRule (sanitize_file_type fp)
  unfolding sanitize_file_type
  file_type_done = (ground arith, ground arith, ground arith, ground arith)

  module _ (t : TiffRule fp) where
    grain_done :
        AsShotRule (sanitize_grain fp)
        × HdrPlusRule (sanitize_grain fp)
        × HdrRule (sanitize_grain fp)
        × TiffRule (sanitize_grain fp)
        × GrainRule (sanitize_grain fp)
    unfolding sanitize_grain
    grain_done = (ground arith, ground arith, ground arith, ground arith, ground arith)

    color_done : GrainRule fp → IsSane (sanitize_color fp)
    unfolding sanitize_color
    color_done g = record {
      as_shot = ground arith;
      hdr_plus = ground arith;
      hdr = ground arith;
      tiff = ground arith;
      grain_off = ground arith;
      monochrome = ground arith;
      sepia = ground arith;
      colour = ground arith;
    }

-- The steps after the HDR step.
rest_done :
    (fp : FujiProfile)
    → AsShotRule fp
    → HdrPlusRule fp
    → HdrRule fp
    → IsSane (sanitize_color (sanitize_grain (sanitize_file_type fp)))
rest_done fp a p d =
    let (a1, p1, d1, t1) = file_type_done fp a p d in
    let (a2, p2, d2, t2, g2) = grain_done (sanitize_file_type fp) a1 p1 d1 t1 in
    color_done (sanitize_grain (sanitize_file_type fp)) a2 p2 d2 t2 g2

-- Where sanitizing succeeds, every rule about settings that exclude one another holds of the result.
pub sanitize-IsSane :
    (fp : FujiProfile)
    → (sanitize_parsed_conv_profile fp).1 ≡ success
    → IsSane (sanitize_parsed_conv_profile fp).0
unfolding sanitize_parsed_conv_profile
sanitize-IsSane fp h =
    let fp' : FujiProfile = (sanitize_hdr (sanitize_white_balance fp)).0 in
    elim (Status-cases (sanitize_hdr (sanitize_white_balance fp)).1) [
      | inr bad ↦ ground arith
      | inl good ↦
          let (a, p, d) = hdr_done (sanitize_white_balance fp) (white_balance_done fp) good in
          rw (sanitize_parsed_conv_profile, good) (rest_done fp' a p d)
    ]

-- Sanitizing fails exactly for `800 PLUS` without the dynamic range priority that it wants.
pub sanitize_fails_iff :
    (fp : FujiProfile)
    → ((sanitize_parsed_conv_profile fp).1 ≡ failure) ↔ ((fp.hdr ≡ 801) × (fp.wide_d_range ≢ 3))
unfolding sanitize_parsed_conv_profile sanitize_hdr sanitize_white_balance
sanitize_fails_iff fp = ground arith
