-- ===== src/Fp/Xml/Unset.antt =====
-- Fields that no branch of `parse_prop` (fp/src/xml.c) writes, although the profile has them: the
-- shooting condition, the blue shift of the white balance, and the lens modulation.
use libfuji.Common.{String, ◌≡◌, refl, Option, some, arith}
use libfuji.Fp.Lookup.{Status}
use libfuji.Fp.Profile.{FujiProfile}
use libfuji.Fp.Xml.Keeps.{parse_fp1-keeps}
use libfuji.Fp.Xml.Props.{XmlKey, parse_tag, parse_wb_shift, parse_iop_code, parse_dynamic_range}
use libfuji.Fp.Xml.Profile.{
  XmlRoot, fp_parse_fp1, sanitize_parsed_conv_profile, sanitize_white_balance, sanitize_hdr,
  sanitize_file_type, sanitize_grain, sanitize_color,
}

abbrev pub IsUnset : FujiProfile → Type 0
IsUnset fp = (fp.shooting_condition ≡ 0) × (fp.wb_shift_b ≡ 0) × (fp.lens_modulation_opt ≡ 0)

parse_tag-IsUnset :
    (fp : FujiProfile) (tag : XmlKey) (value : Option String)
    → IsUnset fp
    → IsUnset (parse_tag fp tag value).0
unfolding parse_tag parse_wb_shift parse_iop_code parse_dynamic_range
parse_tag-IsUnset fp tag value h = (ground arith, ground arith, ground arith)

sanitize-IsUnset : (fp : FujiProfile) → IsUnset fp → IsUnset (sanitize_parsed_conv_profile fp).0
unfolding sanitize_parsed_conv_profile sanitize_white_balance sanitize_hdr sanitize_file_type
    sanitize_grain sanitize_color
sanitize-IsUnset fp h = (ground arith, ground arith, ground arith)

-- Whatever the file, the profile that is read has no shooting condition, no blue shift and no lens
-- modulation: these fields are 0.
pub parse_fp1-IsUnset :
    (ezxml_parse_file : String → Option XmlRoot) (path : String) (fp : FujiProfile) (rc : Status)
    → fp_parse_fp1 ezxml_parse_file path ≡ some (fp, rc)
    → (fp.shooting_condition ≡ 0) × (fp.wb_shift_b ≡ 0) × (fp.lens_modulation_opt ≡ 0)
parse_fp1-IsUnset =
    parse_fp1-keeps IsUnset parse_tag-IsUnset sanitize-IsUnset (λ v. (refl, refl, refl))
