-- ===== src/Fuji/Versions/Keeps.antt =====
-- What agreeing on versions and entering the app's gallery (lib/fuji.c) keep of the session.
use libfuji.Common.{ℕ}
use libfuji.Fuji.Session.{PtpRuntime, Port}
use libfuji.Fuji.Versions.{
  accept_prop, config_version_unlocked, fuji_config_version, fuji_xapp_config_gallery,
}
use libfuji.Fuji.Steps.{assign_fuji}
use libfuji.Fuji.Steps.Keeps.{IsFrame, Keeps, Keeps-assign_fuji, keeps_rules}

module _ {W : Type 0} {R : PtpRuntime W → PtpRuntime W → Type 0} (c : IsFrame R)
    (port : Port W) where
  pub accept_prop-Keeps : (code : ℕ) → Keeps R (accept_prop port code)
  unfolding accept_prop
  accept_prop-Keeps code = search (keeps_rules, c)

  pub config_version-Keeps : Keeps R (fuji_config_version port)
  unfolding fuji_config_version config_version_unlocked
  config_version-Keeps = search (keeps_rules, accept_prop-Keeps, c) depth 9

  pub xapp_config_gallery-Keeps :
      ((r : PtpRuntime W) (v : ℕ)
        → R r (record r { fuji = record r.fuji { remote_image_view_ex_version = v } }))
      → Keeps R (fuji_xapp_config_gallery port)
  unfolding fuji_xapp_config_gallery
  xapp_config_gallery-Keeps h =
      let stored : (v : ℕ)
          → Keeps R (assign_fuji (λ f. record f { remote_image_view_ex_version = v })) =
        λ v. Keeps-assign_fuji c _ (λ r. h r v) in
      search (keeps_rules, stored, c) depth 40
