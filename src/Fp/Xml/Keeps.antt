-- ===== src/Fp/Xml/Keeps.antt =====
-- The induction over `fp_parse_fp1` (fp/src/xml.c): what holds of a cleared profile, and is kept by the
-- branches of `parse_prop` and by sanitizing, holds of the profile that is read, whatever the file.
use libfuji.Common.{
  ap, subst, ◌>>=◌, ℕ, String, ◌≡◌, Option, none, some, List, [], ◌∷◌, str_eq, Bool, true, false,
  if◌then◌else◌,
}
use libfuji.Fp.Lookup.{Status, success, failure}
use libfuji.Fp.Profile.{FujiProfile, zeroed}
use libfuji.Fp.Xml.Props.{XmlKey, parse_tag, parse_prop, find_key, xml_keys}
use libfuji.Fp.Xml.Profile.{
  XmlProp, XmlGroup, XmlRoot, parse_all, parse_group, parse_root, fp_parse_fp1,
  sanitize_parsed_conv_profile, profile_version_of,
}

module _ (P : FujiProfile → Type 0)
    (tag_keeps : (fp : FujiProfile) (tag : XmlKey) (value : Option String)
      → P fp
      → P (parse_tag fp tag value).0)
    (sanitize_keeps : (fp : FujiProfile) → P fp → P (sanitize_parsed_conv_profile fp).0)
    (start : (v : ℕ) → P (record zeroed { profile_version = v })) where
  parse_prop-keeps :
      (fp : FujiProfile) (key : String) (value : Option String)
      → P fp
      → P (parse_prop fp key value).0
  unfolding parse_prop
  parse_prop-keeps fp key value h =
      elim (find_key key xml_keys)
        as (λ k.
          P
            (elim k as (λ x. FujiProfile × Status) [
              | none ↦ (fp, failure)
              | some tag ↦ parse_tag fp tag value
            ]).0) [ none ↦ h | some tag ↦ tag_keeps fp tag value h ]

  -- A step, then a continuation where the step succeeds.
  then_keeps :
      (r : FujiProfile × Status) (k : FujiProfile → FujiProfile × Status)
      → P r.0
      → ((fp : FujiProfile) → P fp → P (k fp).0)
      → P (elim r.1 as (λ x. FujiProfile × Status) [ failure ↦ (r.0, failure) | success ↦ k r.0 ]).0
  then_keeps (fp, success) k h f = f fp h
  then_keeps (fp, failure) k h f = h

  if_keeps : (b : Bool) (x y : FujiProfile × Status) → P x.0 → P y.0 → P (if b then x else y).0
  if_keeps true x y h k = h
  if_keeps false x y h k = k

  parse_all-keeps : (ps : List XmlProp) (fp : FujiProfile) → P fp → P (parse_all ps fp).0
  unfolding parse_all
  parse_all-keeps [] fp h = h
  parse_all-keeps (p ∷ ps) fp h =
      if_keeps (str_eq p.name "RejectedValue") _ _ (parse_all-keeps ps fp h) (
        then_keeps (parse_prop fp p.name (if p.self_closing then none else some p.txt))
          (parse_all ps) (parse_prop-keeps fp p.name _ h) (parse_all-keeps ps))

  group_keeps :
      (ps : List XmlProp) (fp : FujiProfile)
      → P fp
      → P
          (let (fp', rc) = parse_all ps fp in
            elim rc as (λ x. FujiProfile × Status) [
              | failure ↦ (fp', failure)
              | success ↦ ((sanitize_parsed_conv_profile fp').0, success)
            ]).0
  group_keeps ps fp h =
      then_keeps (parse_all ps fp) (λ fp'. ((sanitize_parsed_conv_profile fp').0, success))
        (parse_all-keeps ps fp h) sanitize_keeps

  option_keeps :
      {A : Type 0} (o : Option A) (x : FujiProfile × Status) (k : A → FujiProfile × Status)
      → P x.0
      → ((a : A) → P (k a).0)
      → P (elim o as (λ x. FujiProfile × Status) [ none ↦ x | some a ↦ k a ]).0
  option_keeps none x k h f = h
  option_keeps (some a) x k h f = f a

  props_keep :
      (ps : List XmlProp) (fp : FujiProfile)
      → P fp
      → P
          (elim ps as (λ x. FujiProfile × Status) [
            | [] ↦ (fp, failure)
            | p ∷ ps ↦
                let (fp', rc) = parse_all (p ∷ ps) fp in
                elim rc as (λ x. FujiProfile × Status) [
                  | failure ↦ (fp', failure)
                  | success ↦ ((sanitize_parsed_conv_profile fp').0, success)
                ]
          ]).0
  props_keep [] fp h = h
  props_keep (p ∷ ps) fp h = group_keeps (p ∷ ps) fp h

  parse_group-keeps : (fp : FujiProfile) (group : XmlGroup) → P fp → P (parse_group fp group).0
  unfolding parse_group
  parse_group-keeps fp group h =
      if_keeps (str_eq group.name "PropertyGroup") _ _ (props_keep group.props fp h) h

  parse_root-keeps : (xml : XmlRoot) → P (parse_root xml).0
  unfolding parse_root
  parse_root-keeps xml =
      if_keeps (str_eq xml.name "ConversionProfile") _ _
        (option_keeps (xml.attr "application") _ _ (start 0) (λ application.
          if_keeps (str_eq application "XRFC") _ _
            (option_keeps (xml.attr "version") _ _ (start 0) (λ version.
              option_keeps (profile_version_of version) _ _ (start 0) (λ v.
                option_keeps xml.child _ _ (start v)
                  (λ group. parse_group-keeps _ group (start v)))))
            (start 0)))
        (start 0)

  given_keeps :
      (o : Option XmlRoot) (fp : FujiProfile) (rc : Status)
      → (do xml ← o; some (parse_root xml)) ≡ some (fp, rc)
      → P fp
  given_keeps none fp rc h = cc
  given_keeps (some xml) fp rc h =
      subst P
        (ap
          (λ (o : Option (FujiProfile × Status)). (elim o as (λ x. FujiProfile) [
            | none ↦ fp
            | some r ↦ r.0
          ]))
          h)
        (parse_root-keeps xml)

  pub parse_fp1-keeps :
      (ezxml_parse_file : String → Option XmlRoot) (path : String) (fp : FujiProfile) (rc : Status)
      → fp_parse_fp1 ezxml_parse_file path ≡ some (fp, rc)
      → P fp
  unfolding fp_parse_fp1
  parse_fp1-keeps ezxml_parse_file path fp rc h = given_keeps (ezxml_parse_file path) fp rc h
