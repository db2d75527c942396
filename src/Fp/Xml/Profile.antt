-- ===== src/Fp/Xml/Profile.antt =====
-- A whole XML profile (fp/src/xml.c): `sanitize_parsed_conv_profile`, `fp_parse_fp1`, and the dump of
-- a profile as text.
use libfuji.Common.{
  ℕ, String, str_eq, Bool, ◌||◌, List, [], ◌∷◌, Option, none, some, ◌==◌, if◌then◌else◌, ◌>>=◌, leb,
  ◌&&◌,
}
use libfuji.Fp.Lookup.{Status, success, failure}
use libfuji.Fp.Profile.{FujiProfile, zeroed}
use libfuji.Fp.Xml.Props.{parse_prop}

-- White balance: as shot (`FB_WB_SHOOT_COND_ON`) overrides the rest.
unfoldable pub sanitize_white_balance : FujiProfile → FujiProfile
sanitize_white_balance fp =
    if fp.wb_shoot_cond == 1
    then record fp { white_balance = 1; wb_color_temp = 0; wb_shift_r = 0; wb_shift_b = 0 }
    else fp

-- `FP_HDR_800_PLUS` is 801, and wants `FP_DRANGE_PRIO_HDR800PLUS`, 3.
unfoldable pub sanitize_hdr : FujiProfile → FujiProfile × Status
sanitize_hdr fp =
    if fp.hdr == 801
    then (if fp.wide_d_range == 3
        then (record fp { dynamic_range = 800 }, success)
        else (fp, failure))
    else if fp.hdr == 800 || fp.hdr == 400 || fp.hdr == 200
    then (record fp { dynamic_range = fp.hdr }, success)
    else (fp, success)

-- `FP_TIFF_8_BIT` is 9, `FP_TIFF_16_BIT` is 11.
unfoldable pub sanitize_file_type : FujiProfile → FujiProfile
sanitize_file_type fp =
    if fp.file_type == 9 || fp.file_type == 11
    then record fp { image_quality = 0; image_size = 0 }
    else fp

unfoldable pub sanitize_grain : FujiProfile → FujiProfile
sanitize_grain fp = if fp.grain_effect == 1 then record fp { grain_effect_size = 0 } else fp

-- The monochrome simulations are 6 to 9 and 12 to 15, `FP_Sepia` is 10.
abbrev pub is_monochrome : ℕ → Bool
is_monochrome sim = leb 6 sim && leb sim 9 || leb 12 sim && leb sim 15

unfoldable pub sanitize_color : FujiProfile → FujiProfile
sanitize_color fp =
    if is_monochrome fp.film_simulation
    then record fp { color = 0 }
    else if fp.film_simulation == 10
    then record fp { color = 0; monochromatic_color_rg = 0; black_image_tone = 0 }
    else record fp { monochromatic_color_rg = 0; black_image_tone = 0 }

-- A wrong dynamic range priority ends the call after the first two steps.
unfoldable pub sanitize_parsed_conv_profile : FujiProfile → FujiProfile × Status
sanitize_parsed_conv_profile fp =
    let (fp', rc) = sanitize_hdr (sanitize_white_balance fp) in
    elim rc [
      | failure ↦ (fp', failure)
      | success ↦ (sanitize_color (sanitize_grain (sanitize_file_type fp')), success)
    ]

-- The part of ezxml's tree that the code reads: the root's name and attributes, its first child, and
-- the chain of `sibling` pointers from that node's first child, the nodes that the loop visits.
-- `self_closing` is `EZXML_SELFCLOSING` among a node's flags.
pub record XmlProp : Type 0 where
  pub name : String
  pub txt : String
  pub self_closing : Bool

pub record XmlGroup : Type 0 where
  pub name : String
  pub props : List XmlProp

pub record XmlRoot : Type 0 where
  pub name : String
  pub attr : String → Option String
  pub child : Option XmlGroup

-- The loop over the properties; it stops at the first error.
unfoldable pub parse_all : List XmlProp → FujiProfile → FujiProfile × Status
parse_all [] fp = (fp, success)
parse_all (p ∷ ps) fp =
    if str_eq p.name "RejectedValue"
    then parse_all ps fp
    else let (fp', rc) = parse_prop fp p.name (if p.self_closing then none else some p.txt) in
      elim rc [ failure ↦ (fp', failure) | success ↦ parse_all ps fp' ]

-- The loop and the sanitizing; the result of the latter is not looked at.
unfoldable pub parse_group : FujiProfile → XmlGroup → FujiProfile × Status
parse_group fp group =
    if str_eq group.name "PropertyGroup"
    then elim group.props [
      | [] ↦ (fp, failure)
      | p ∷ ps ↦
          let (fp', rc) = parse_all (p ∷ ps) fp in
          elim rc [
            | failure ↦ (fp', failure)
            | success ↦ ((sanitize_parsed_conv_profile fp').0, success)
          ]
    ]
    else (fp, failure)

-- `FP_FP1_VER` is 1 and `FP_FP2_VER` is 2.
abbrev pub profile_version_of : String → Option ℕ
profile_version_of v =
    if str_eq v "1.10.0.0" || str_eq v "1.11.0.0"
    then some 1
    else if str_eq v "1.12.0.0"
    then some 2
    else none

unfoldable pub parse_root : XmlRoot → FujiProfile × Status
unfolding parse_group
parse_root xml =
    if str_eq xml.name "ConversionProfile"
    then elim (xml.attr "application") [
      | none ↦ (zeroed, failure)
      | some application ↦
          if str_eq application "XRFC"
          then elim (xml.attr "version") [
            | none ↦ (zeroed, failure)
            | some version ↦ elim (profile_version_of version) [
              | none ↦ (zeroed, failure)
              | some v ↦
                  let fp = record zeroed { profile_version = v } in
                  elim xml.child [ none ↦ (fp, failure) | some group ↦ parse_group fp group ]
            ]
          ]
          else (zeroed, failure)
    ]
    else (zeroed, failure)

-- `ezxml_parse_file` is ezxml's; where it gives NULL, the code reads through the NULL pointer.
unfoldable pub fp_parse_fp1 : (String → Option XmlRoot) → String → Option (FujiProfile × Status)
unfolding parse_root
fp_parse_fp1 ezxml_parse_file path = do xml ← ezxml_parse_file path; some (parse_root xml)
