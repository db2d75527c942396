-- ===== src/Tests/Xml.antt =====
-- A profile file, read, sanitized, dumped and packed.
use libfuji.Common.{
  ◌↔◌, true, false, ◌≡◌, ◌≢◌, ◌⊎◌, inl, refl, String, str_eq, Option, some, none, [], ◌∷◌,
  if◌then◌else◌, neg32,
}
use libfuji.Fp.Lookup.{success, failure, has_value, validate_lookup, copy_value_if_valid}
use libfuji.Fp.Profile.{FujiProfile, zeroed, fp_apply_profile}
use libfuji.Fp.Tables.{fp_film_sim, fp_hdr, fp_range_wb_shift}
use libfuji.Fp.D185.Props.{D185Prop, get_prop}
use libfuji.Fp.Pack.{
  is_settled, apply_fp1-get_prop, sanitized_hdr-get_prop, parse_wb_shift-get_prop,
}
use libfuji.Fp.Xml.Props.{parse_prop, parse_tag, parse_wb_shift, find_key, xml_keys}
use libfuji.Fp.Xml.Strtoul.{strtoul}
use libfuji.Fp.Xml.Profile.{
  XmlRoot, fp_parse_fp1, parse_root, parse_group, parse_all, sanitize_parsed_conv_profile,
  sanitize_white_balance, sanitize_hdr, sanitize_file_type, sanitize_grain, sanitize_color,
}
use libfuji.Fp.Xml.Sanitized.{IsSane, sanitize-IsSane, sanitize_fails_iff}
use libfuji.Fp.Xml.Readable.{IsReadable, parse_fp1-IsReadable}
use libfuji.Fp.Xml.Unset.{parse_fp1-IsUnset}
use libfuji.Fp.Xml.Dump.{dump_property, line, has_distinct_keys, has_key, fp_dump_struct}
use libfuji.Fp.Xml.Dumped.{dump_property-validate}
use libfuji.Fp.Xml.Listed.{IsListed, dump_struct_succeeds_iff}

abbrev sample_root : XmlRoot
sample_root = record {
  name = "ConversionProfile";
  attr = λ key.
      if str_eq key "application"
      then some "XRFC"
      else if str_eq key "version"
      then some "1.12.0.0"
      else none;
  child = some (record {
    name = "PropertyGroup";
    props =
        record { name = "FilmSimulation"; txt = "Classic"; self_closing = false }
        ∷ record { name = "RejectedValue"; txt = ""; self_closing = true }
        ∷ record { name = "WBShiftB"; txt = "3"; self_closing = false }
        ∷ record { name = "HDR"; txt = "800"; self_closing = false }
        ∷ [];
  });
}

abbrev open_sample : String → Option XmlRoot
open_sample path = some sample_root

abbrev sample_fp : FujiProfile
sample_fp = record zeroed {
  profile_version = 2;
  film_simulation = 11;
  wb_shift_r = 3;
  hdr = 800;
  dynamic_range = 800;
}

open_sample_read : fp_parse_fp1 open_sample "a.FP2" ≡ some (sample_fp, success)
unfolding fp_parse_fp1 parse_root parse_group parse_all parse_prop find_key xml_keys parse_tag
    parse_wb_shift validate_lookup fp_film_sim fp_hdr strtoul sanitize_parsed_conv_profile
    sanitize_white_balance sanitize_hdr sanitize_file_type sanitize_grain sanitize_color
open_sample_read = refl

parse_fp1-IsUnset_example :
    (sample_fp.shooting_condition ≡ 0)
    × (sample_fp.wb_shift_b ≡ 0)
    × (sample_fp.lens_modulation_opt ≡ 0)
parse_fp1-IsUnset_example = parse_fp1-IsUnset open_sample "a.FP2" sample_fp success open_sample_read

parse_fp1-IsReadable_example : IsReadable sample_fp
parse_fp1-IsReadable_example =
    parse_fp1-IsReadable open_sample "a.FP2" sample_fp success open_sample_read

film_simulation_settled : is_settled D185Prop.film_simulation ≡ true
unfolding is_settled
film_simulation_settled = refl

apply_fp1-get_prop_example :
    (get_prop (fp_apply_profile sample_fp zeroed) D185Prop.film_simulation 99 7).1 ≡ success
apply_fp1-get_prop_example =
    apply_fp1-get_prop open_sample "a.FP2" sample_fp zeroed success D185Prop.film_simulation 99 7
      open_sample_read film_simulation_settled

sample_sanitized : (sanitize_parsed_conv_profile sample_fp).1 ≡ success
unfolding sanitize_parsed_conv_profile sanitize_hdr sanitize_white_balance
sample_sanitized = refl

sanitize-IsSane_example : IsSane (sanitize_parsed_conv_profile sample_fp).0
sanitize-IsSane_example = sanitize-IsSane sample_fp sample_sanitized

abbrev conflicting : FujiProfile
conflicting = record zeroed { hdr = 801; wide_d_range = 1 }

sanitize_fails_iff_example :
    ((sanitize_parsed_conv_profile conflicting).1 ≡ failure)
    ↔ ((conflicting.hdr ≡ 801) × (conflicting.wide_d_range ≢ 3))
sanitize_fails_iff_example = sanitize_fails_iff conflicting

sanitized_hdr-get_prop_example :
    (get_prop
      (fp_apply_profile (sanitize_parsed_conv_profile sample_fp).0 zeroed)
      D185Prop.dynamic_range
      99
      7).1
    ≡ failure
sanitized_hdr-get_prop_example =
    sanitized_hdr-get_prop sample_fp zeroed 99 7 sample_sanitized (inl refl)

minus_ten_read : (parse_wb_shift zeroed (some "-10")).1 ≡ success
unfolding parse_wb_shift strtoul
minus_ten_read = refl

minus_ten_packed :
    (get_prop
      (fp_apply_profile (parse_wb_shift zeroed (some "-10")).0 zeroed)
      D185Prop.white_balance_shift_red_green
      99
      7).1
    ≡ success
unfolding parse_wb_shift strtoul get_prop fp_apply_profile copy_value_if_valid fp_range_wb_shift
minus_ten_packed = refl

parse_wb_shift-get_prop_example :
    ((parse_wb_shift zeroed (some "-10")).0.wb_shift_r ≡ 0)
    ⊎ (((parse_wb_shift zeroed (some "-10")).0.wb_shift_r ≡ 10)
        ⊎ ((parse_wb_shift zeroed (some "-10")).0.wb_shift_r ≡ neg32 10))
parse_wb_shift-get_prop_example =
    parse_wb_shift-get_prop zeroed zeroed "-10" 99 7 minus_ten_read minus_ten_packed

film_sim_keys : has_distinct_keys fp_film_sim ≡ true
unfolding has_distinct_keys has_key fp_film_sim
film_sim_keys = refl

film_sim_lists : has_value 14 fp_film_sim ≡ true
unfolding has_value fp_film_sim
film_sim_lists = refl

dump_property-validate_example :
    (key : String) × (dump_property (λ v. "") "FilmSimulation" 14 (some fp_film_sim)
      ≡ (line "FilmSimulation" key ∷ [], success))
    × (validate_lookup key 0 fp_film_sim ≡ (14, success))
dump_property-validate_example =
    dump_property-validate (λ v. "") "FilmSimulation" 14 0 fp_film_sim film_sim_keys film_sim_lists

dump_struct_succeeds_iff_example :
    ((fp_dump_struct (λ v. "") (λ v. "") sample_fp).1 ≡ success) ↔ IsListed sample_fp
dump_struct_succeeds_iff_example = dump_struct_succeeds_iff (λ v. "") (λ v. "") sample_fp
