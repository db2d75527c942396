-- ===== src/Tests/Fuji.antt =====
-- A camera with one small file, and downloads from it.
use libfuji.Common.{
  zero, suc, ◌≤◌, length-take-drop, ℕ, ◌+◌, ◌<◌, ◌≡◌, refl, false, List, [], ◌∷◌, ◌++◌, some,
  length, take, drop, arith, read_u16, read_u32,
}
use libfuji.Fuji.Session.{
  unnamed, ptp_ip, Rc, ok, FujiTransport, wireless_tether, wireless_comm, PtpRuntime, Port,
}
use libfuji.Fuji.Events.{
  PtpFujiEventsEntry, read_events, payload_events, fuji_get_events, handle_payload, handle_events,
  event_round, event_at, read_entry, handle_event, set_camera_state,
}
use libfuji.Fuji.Modes.{fuji_config_init_mode}
use libfuji.Fuji.Download.{
  Sink, next_request, take_chunk, request_chunk, download_loop, prepare, finish, leave,
  download_locked, fuji_download_file_ex,
}
use libfuji.Fuji.Download.Complete.{IsFaithful}
use libfuji.Fuji.Download.File.{download_file_complete}
use libfuji.Fuji.Download.Succeeds.{IsCooperative, download_file-succeeds}
use libfuji.Fuji.Download.Locks.{download_file-locks}

-- What the receiver has, and the last payload.
pub record World : Type 0 where
  pub received : List ℕ
  pub payload : List ℕ

abbrev sample_file : List ℕ
sample_file = 10 ∷ 20 ∷ 30 ∷ []

-- Two events: five objects, and full access.
abbrev sample_events : List ℕ
sample_events = 2 ∷ 0 ∷ 0x22 ∷ 0xd2 ∷ 5 ∷ 0 ∷ 0 ∷ 0 ∷ 0x00 ∷ 0xdf ∷ 2 ∷ 0 ∷ 0 ∷ 0 ∷ []

abbrev pub sample_port : Port World
sample_port = record {
  get_prop_value = λ code w. (record w { payload = sample_events }, ok);
  set_prop_value16 = λ code value w. (w, ok);
  set_prop_value = λ code value w. (w, ok);
  parse_prop_value = λ w. length w.payload;
  send = λ code params w. (w, ok);
  get_return_code = λ w. 0x2001;
  transaction = λ w. 1;
  set_transaction = λ n w. w;
  init_open_capture = λ w. (w, ok);
  terminate_open_capture = λ id w. (w, ok);
  get_thumbnail = λ handle w. (w, ok);
  delete_object = λ handle w. w;
  download_object = λ handle i w. w;
  get_object_handles = λ w. (w, ok, 1 ∷ []);
  get_object_info = λ handle w. (w, ok, length sample_file);
  get_partial_object =
      λ handle offset n w. (record w { payload = take n (drop offset sample_file) }, ok);
  payload = λ w. w.payload;
  update_storage_info = λ w. w;
  queue_file_for_download = λ handle w. (w, ok);
  update_object_info = λ handle size w. w;
  check_thread_cancel = λ w. (w, false);
  report_download_speed = λ n w. w;
}

abbrev pub sample_sink : Sink World
sample_sink = record {
  info = λ w. w;
  handle_add = λ bytes offset total w. (record w { received = w.received ++ bytes }, false);
}

abbrev pub sample_runtime : FujiTransport → PtpRuntime World
sample_runtime t = record {
  world = record { received = []; payload = [] };
  locks = 0;
  wait_for_response = 0;
  session = 0;
  connection_type = ptp_ip;
  io_kill_switch = false;
  operation_kill_switch = false;
  fuji = record {
    transport = t;
    camera_state = 0;
    selected_imgs_mode = 0;
    num_objects = 5;
    get_object_version = 0;
    remote_image_view_version = 0;
    remote_image_view_ex_version = 0;
    image_get_version = 0;
    remote_version = 0;
    opened_liveview_sockets = false;
    storage_device_name = unnamed;
    open_capture_trans_id = 0;
    prop_desc_list = [];
    allow_autosave_thumbnails = false;
    sort_by_oldest_first = false;
    compress_images_for_smartphone = false;
  };
}

sample-IsFaithful : IsFaithful sample_port sample_sink 1 sample_file (λ (w : World). w.received)
sample-IsFaithful = record {
  cancel_keeps = λ w. refl;
  partial_keeps = λ offset n w. refl;
  partial_carries = λ offset n w e. (n, refl);
  prop_keeps = λ code value w. refl;
  info_keeps = λ w. refl;
  info_tells = λ w e. refl;
  update_keeps = λ size w. refl;
  callback_keeps = λ w. refl;
  report_keeps = λ n w. refl;
  add_appends = λ bytes offset total w e. refl;
}

download_file_complete_example :
    (r' : PtpRuntime World) × (rc : Rc) × (fuji_download_file_ex sample_port sample_sink
        (sample_runtime wireless_tether)
        1
      ≡ some (r', rc))
    × (rc ≡ ok → r'.world.received ≡ sample_file)
download_file_complete_example =
    download_file_complete sample-IsFaithful (omega arith) (sample_runtime wireless_tether) refl
      refl

abbrev sample_downloaded : PtpRuntime World
sample_downloaded = record (sample_runtime wireless_tether) {
  world = record { received = sample_file; payload = sample_file };
}

sample_download :
    fuji_download_file_ex sample_port sample_sink (sample_runtime wireless_tether) 1
    ≡ some (sample_downloaded, ok)
unfolding fuji_download_file_ex prepare download_locked download_loop request_chunk next_request
    take_chunk leave finish
sample_download = refl

nonempty_chunk :
    (offset n : ℕ) (xs : List ℕ) → offset < length xs → 0 < n → 0 < length (take n (drop offset xs))
nonempty_chunk zero zero xs h l = absurd (omega arith)
nonempty_chunk zero (suc n) [] h l = absurd (omega arith)
nonempty_chunk zero (suc n) (x ∷ xs) h l = omega arith
nonempty_chunk (suc offset) n [] h l = absurd (omega arith)
nonempty_chunk (suc offset) n (x ∷ xs) h l = nonempty_chunk offset n xs (omega arith) l

chunk_length :
    (offset n : ℕ)
    → offset < length sample_file
    → 0 < n
    → (0 < length (take n (drop offset sample_file)))
      × (offset + length (take n (drop offset sample_file)) ≤ length sample_file)
chunk_length offset n h l =
    (nonempty_chunk offset n sample_file h l, length-take-drop offset n sample_file (omega arith))

sample-IsCooperative : IsCooperative sample_port sample_sink 1 sample_file
sample-IsCooperative = record {
  never_cancels = λ w. refl;
  has_info = λ w. refl;
  tells_size = λ w. refl;
  answers = λ offset n w. refl;
  carries = λ offset n w h l. chunk_length offset n h l;
  accepts = λ bytes offset total w. refl;
}

download_file-succeeds_example :
    (r' : PtpRuntime World) × (fuji_download_file_ex sample_port sample_sink
        (sample_runtime wireless_tether)
        1
      ≡ some (r', ok))
download_file-succeeds_example =
    download_file-succeeds sample-IsCooperative (omega arith) (sample_runtime wireless_tether) refl
      (omega arith)

download_file-locks_example : sample_downloaded.locks ≡ (sample_runtime wireless_tether).locks
download_file-locks_example =
    download_file-locks sample_port sample_sink 1 (sample_runtime wireless_tether) sample_downloaded
      ok sample_download

abbrev sample_entries : List PtpFujiEventsEntry
sample_entries = record { code = 0xd222; value = 5 } ∷ record { code = 0xdf00; value = 2 } ∷ []

abbrev sample_informed : PtpRuntime World
sample_informed =
    let r : PtpRuntime World = sample_runtime wireless_comm in
    record r {
      world = record { received = []; payload = sample_events };
      fuji = record r.fuji { num_objects = 5; camera_state = 2 };
    }

abbrev sample_configured : PtpRuntime World
sample_configured = record sample_informed { wait_for_response = 255 }

sample_config :
    fuji_config_init_mode sample_port (sample_runtime wireless_comm) ≡ some (sample_configured, ok)
unfolding fuji_config_init_mode fuji_get_events handle_payload payload_events read_events read_u16
    read_u32 handle_events event_round event_at read_entry handle_event set_camera_state
sample_config = refl
