-- ===== src/Fuji/Liveview/Keeps.antt =====
-- What entering and leaving live view and the gallery (lib/fuji.c) keep of the session.
use libfuji.Common.{ℕ, true}
use libfuji.Fuji.Session.{PtpRuntime, Port}
use libfuji.Fuji.Versions.Keeps.{accept_prop-Keeps, xapp_config_gallery-Keeps}
use libfuji.Fuji.Events.Keeps.{IsEventFrame, get_events-Keeps}
use libfuji.Fuji.Liveview.{
  enter_remote, open_once, LiveviewSockets, fuji_end_liveview, prepare_xapp, return_to_remote,
  begin_remote, open_sockets, fuji_config_liveview, update_image_view_version, enter_gallery,
  fuji_config_image_gallery,
}
use libfuji.Fuji.Steps.Keeps.{IsFrame, Keeps, Keeps-assign_fuji, keeps_rules}

-- A relation that does not look at what live view and the gallery note down either.
pub record IsViewFrame {W : Type 0} (R : PtpRuntime W → PtpRuntime W → Type 0) : Type 0 where
  pub events : IsEventFrame R
  pub notes_transaction :
      (r : PtpRuntime W) (v : ℕ)
      → R r (record r { fuji = record r.fuji { open_capture_trans_id = v } })
  pub notes_sockets :
      (r : PtpRuntime W)
      → R r (record r { fuji = record r.fuji { opened_liveview_sockets = true } })
  pub notes_version :
      (r : PtpRuntime W) (v : ℕ)
      → R r (record r { fuji = record r.fuji { remote_image_view_version = v } })
  pub notes_ex_version :
      (r : PtpRuntime W) (v : ℕ)
      → R r (record r { fuji = record r.fuji { remote_image_view_ex_version = v } })

module _ {W : Type 0} {R : PtpRuntime W → PtpRuntime W → Type 0} (c : IsViewFrame R)
    (port : Port W) where
  framed : IsFrame R
  framed = c.events.frame

  pub end_liveview-Keeps : Keeps R (fuji_end_liveview port)
  unfolding fuji_end_liveview
  end_liveview-Keeps = search (keeps_rules, get_events-Keeps, c.events, framed) depth 12

  pub begin_remote-Keeps : Keeps R (begin_remote port)
  unfolding begin_remote return_to_remote
  begin_remote-Keeps =
      search
        (keeps_rules, get_events-Keeps, c.events, Keeps-assign_fuji, c.notes_transaction, framed)
        depth 30

  pub prepare_xapp-Keeps : Keeps R (prepare_xapp port)
  unfolding prepare_xapp
  prepare_xapp-Keeps = search (keeps_rules, accept_prop-Keeps, framed) depth 12

  open_sockets-Keeps : (sockets : LiveviewSockets W) → Keeps R (open_sockets port sockets)
  unfolding open_sockets
  open_sockets-Keeps sockets =
      search (keeps_rules, Keeps-assign_fuji, c.notes_sockets, framed) depth 12

  pub config_liveview-Keeps :
      (sockets : LiveviewSockets W) → Keeps R (fuji_config_liveview port sockets)
  unfolding fuji_config_liveview enter_remote open_once
  config_liveview-Keeps sockets =
      search (keeps_rules, prepare_xapp-Keeps, begin_remote-Keeps, open_sockets-Keeps, framed) depth
        12

  update_image_view_version-Keeps : Keeps R (update_image_view_version port)
  unfolding update_image_view_version
  update_image_view_version-Keeps =
      search (keeps_rules, get_events-Keeps, c.events, Keeps-assign_fuji, c.notes_version, framed)
        depth 20

  enter_gallery-Keeps : Keeps R (enter_gallery port)
  unfolding enter_gallery
  enter_gallery-Keeps =
      search
        (
          keeps_rules, get_events-Keeps, c.events, update_image_view_version-Keeps,
          xapp_config_gallery-Keeps, c.notes_ex_version, framed,
        )
        depth 20

  pub config_image_gallery-Keeps : Keeps R (fuji_config_image_gallery port)
  unfolding fuji_config_image_gallery
  config_image_gallery-Keeps = search (keeps_rules, enter_gallery-Keeps, framed)
