-- ===== src/Tests/Canceled.antt =====
-- A download that is canceled at once, from a camera without events.
use libfuji.Common.{◌≡◌, refl, true, some}
use libfuji.Fuji.Session.{
  ok, check_code, wireless_comm, PtpRuntime, Port, ptp_mutex_lock, ptp_mutex_unlock,
}
use libfuji.Fuji.Events.{fuji_get_events}
use libfuji.Fuji.Download.{fuji_download_file_ex}
use libfuji.Fuji.Download.Forgets.{IsResponsive, canceled_download-ok}
use libfuji.Tests.Fuji.{World, sample_port, sample_sink, sample_runtime}

abbrev canceled_port : Port World
canceled_port = record sample_port {
  get_prop_value = λ code w. (w, check_code);
  check_thread_cancel = λ w. (w, true);
}

canceled-IsResponsive : IsResponsive canceled_port 1
unfolding fuji_get_events
canceled-IsResponsive = record {
  events = λ r. (ptp_mutex_unlock (ptp_mutex_lock r), refl, refl);
  sets = λ code value w. refl;
  info = λ w. refl;
}

canceled_download-ok_example :
    (r' : PtpRuntime World) × (fuji_download_file_ex canceled_port sample_sink
        (sample_runtime wireless_comm)
        1
      ≡ some (r', ok))
canceled_download-ok_example =
    canceled_download-ok sample_sink canceled-IsResponsive (λ w. refl)
      (sample_runtime wireless_comm) refl
