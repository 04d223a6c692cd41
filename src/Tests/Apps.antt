-- ===== src/Tests/Apps.antt =====
-- The theorems on the companion application and on the settings.
use nxremote_api.Base.{
  true, false, none, some, [], ◌∷◌, ◌++◌, length, ◌≤◌, ◌⊎◌, ◌↔◌, ◌≡◌, refl, arith, if◌then◌else◌,
}
use nxremote_api.Base.Int.{pos}
use nxremote_api.Base.Text.{Bytes, codes}
use nxremote_api.CString.Search
use nxremote_api.CString.Number
use nxremote_api.Config.{fresh}
use nxremote_api.Config.Setters.{token_call, port_call, apply_all}
use nxremote_api.Config.Bounds.{IsBounded, apply_all-IsBounded}
use nxremote_api.Core.Album.{text_eq, request_body, launch_request_path}
use nxremote_api.Companion.World.{
  made_dir, wrote, History, Connect, Device, App, no_release, value_text,
}
use nxremote_api.Companion.Log.{add_all, read_boot_log}
use nxremote_api.Companion.Log.Last.{last, logs-add_all}
use nxremote_api.Companion.Terminal.{text_lt, log_window, offer_text, update_text, log_box}
use nxremote_api.Companion.Screen.{Shown, body}
use nxremote_api.Companion.Screen.Rows.{newlines, newlines-body}
use nxremote_api.Companion.Loop.{is_offered}
use nxremote_api.Companion.Loop.Offer.{offer-is_offered}
use nxremote_api.Companion.Loop.Window.{log_window-add_all}
use nxremote_api.Companion.Launcher.{request_tid, run_launcher_mode}
use nxremote_api.Companion.Launcher.Status.{Reported, run_launcher_mode-Reported}
use nxremote_api.Companion.Transfer.{Memory, curle_write_error, receive, download_file}
use nxremote_api.Companion.Transfer.Whole.{IsEnded, receive-IsEnded, download_file-concat}
use nxremote_api.Companion.Launcher.Request.{launches, launches-run_launcher_mode}
use nxremote_api.Companion.Repair.{make_dirs}
use nxremote_api.Companion.Repair.Dirs.{make_dirs-child}
use nxremote_api.Companion.Log.Incremental.{read_boot_log-append}
use nxremote_api.Tests.Peers.{settings, console}
use nxremote_api.Tests.Writer.{
  encode, quoted, writer, writer-IsWriter, reader, reader_writer, reader-IsReader,
}

abbrev request : Bytes
request = encode ((codes "title_id", codes "010000000000100D") ∷ [])

-- A console with a request to the launcher, and a server that sends a file in two pieces.
abbrev pub device : Device
device = record {
  file = λ h path. if text_eq path launch_request_path then some request else none;
  can_write = λ h path. true;
  exists = λ h path. text_eq path launch_request_path;
  stores = λ h. true;
  fclose = λ h bytes. bytes;
  reallocates = λ h. true;
  fresh_byte = λ h. 165;
  curl_init = λ h. true;
  perform =
      λ h url. record { chunks = codes "NSO" ∷ codes "0" ∷ []; result = 0; response = pos 200 };
  request_launch = λ h tid. 0;
  udp_socket = λ h. true;
  strerror = λ n. codes "error";
  tcp_socket = λ h. true;
  connect = λ h ip port. Connect.connected;
  connects = λ h. true;
  pending_error = λ h. pos 0;
  econnrefused = pos 111;
  etimedout = pos 116;
  ehostunreach = pos 118;
  tick = λ h. 0;
  ip = λ h. 1;
  plus = λ h. false;
  minus = λ h. false;
  zr = λ h. false;
  x = λ h. false;
  y = λ h. false;
  random = λ h. 4;
  library_applet = λ h. false;
  main_loop = λ h. true;
  sockets = λ h. true;
  time = λ h. pos 1700000000;
  app_version = codes "1.0";
}

abbrev pub app : App
app = record {
  latest_release = no_release;
  latest_date = [];
  dev_mode = true;
  is_applet_mode = false;
  app_logs = codes "[CONFIG] Settings loaded..." ∷ [];
  sys_status_msg = [];
  last_pos = 0;
  config = settings;
  events = [];
}

abbrev block : Memory
block = record { memory = 165 ∷ []; size = 0 }

run_launcher_mode-Reported_example :
    Reported device quoted writer writer-IsWriter
      (run_launcher_mode device quoted writer app).1.events
unfolding text_eq request_tid value_text Search.c_str Search.starts_with Number.strtoull
    Number.skip_spaces Number.scan_hex Number.hex_value
run_launcher_mode-Reported_example =
    run_launcher_mode-Reported device quoted writer writer-IsWriter (λ h. refl) app request
      0x010000000000100D refl refl

logs-add_all_example :
    ((add_all device (codes "a" ∷ codes "b" ∷ []) app).1.app_logs
      ≡ last 31 (app.app_logs ++ codes "a" ∷ codes "b" ∷ []))
    × (length (add_all device (codes "a" ∷ codes "b" ∷ []) app).1.app_logs ≤ 31)
logs-add_all_example = logs-add_all device (codes "a" ∷ codes "b" ∷ []) app (omega arith)

log_window-add_all_example :
    log_window (add_all device (codes "a" ∷ codes "b" ∷ []) app).1.app_logs
    ≡ last 27 (app.app_logs ++ codes "a" ∷ codes "b" ∷ [])
log_window-add_all_example =
    log_window-add_all device (codes "a" ∷ codes "b" ∷ []) app (omega arith)

receive-IsEnded_example :
    ((receive device (codes "NSO" ∷ codes "0" ∷ []) 0 block app).0.0 ≡ curle_write_error)
    ⊎ (((receive device (codes "NSO" ∷ codes "0" ∷ []) 0 block app).0.0 ≡ 0)
        × IsEnded (codes "NSO0") (receive device (codes "NSO" ∷ codes "0" ∷ []) 0 block app).0.1)
receive-IsEnded_example =
    receive-IsEnded device (codes "NSO") (codes "0" ∷ []) 0 [] block app (refl, refl)

download_file-concat_example :
    ((download_file device (codes "https://x") (codes "sdmc:/main") app).0 ≡ false)
    ⊎ (((device.perform [] (codes "https://x")).result ≡ 0)
        × (h : History) × ((download_file device
              (codes "https://x")
              (codes "sdmc:/main")
              app).1.events
            ≡ wrote (codes "sdmc:/main") (codes "NSO0") ∷ h))
download_file-concat_example =
    download_file-concat device (λ h text. refl) (codes "https://x") (codes "sdmc:/main") app

apply_all-IsBounded_example :
    IsBounded (apply_all (token_call (codes "swift-pluto-7") ∷ port_call (pos 8275) ∷ []) fresh)
apply_all-IsBounded_example =
    apply_all-IsBounded (token_call (codes "swift-pluto-7") ∷ port_call (pos 8275) ∷ []) fresh
      (tt, (omega arith, tt)) (record { fits = omega arith; is_int = omega arith })

-- The console on which the core has asked for a title.
abbrev asked_for : Device
asked_for = record device { file = λ h path. some (request_body (console []) 0x010000000000100D) }

launches-run_launcher_mode_example :
    launches (run_launcher_mode asked_for reader reader_writer app).1.events
    ≡ 0x010000000000100D ∷ []
launches-run_launcher_mode_example =
    launches-run_launcher_mode asked_for reader reader_writer reader-IsReader (console [])
      0x010000000000100D app (omega arith) (omega arith) refl

make_dirs-child_example :
    (make_dirs (codes "sdmc:/atmosphere" ++ b'/' ∷ codes "contents") app).1.events
    ≡ made_dir (codes "sdmc:/atmosphere/contents")
      ∷ (make_dirs (codes "sdmc:/atmosphere") app).1.events
make_dirs-child_example =
    make_dirs-child b's' (codes "dmc:/atmosphere") (codes "contents") app (ground arith)

abbrev old_log : Bytes
old_log = codes "[OK] psm initialized" ++ b'\n' ∷ []

read_boot_log-append_example :
    (read_boot_log device
      (some (old_log ++ codes "[OK] ts"))
      (read_boot_log device (some old_log) app).1).1
    ≡ (read_boot_log device (some (old_log ++ codes "[OK] ts")) app).1
read_boot_log-append_example =
    read_boot_log-append device (codes "[OK] psm initialized") (codes "[OK] ts") app refl

abbrev shown : Shown
shown = record {
  app_version = device.app_version;
  latest_ver = codes "1.1";
  checking_update = false;
  sysmodule_active = true;
  ip = 0x0a01a8c0;
  app = app;
}

offer-is_offered_example :
    (update_text false (codes "1.1") (codes "1.0") ≡ offer_text (codes "1.1")) ↔ (
      (false ≡ false)
      × (is_offered (codes "1.1") (codes "1.0") ≡ true)
      × (text_lt (codes "1.1") (codes "1.0") ≡ false))
offer-is_offered_example = offer-is_offered false (codes "1.1") (codes "1.0")

newlines-body_example : (newlines (body shown) ≡ 36) × (newlines (log_box shown.app.app_logs) ≡ 27)
unfolding newlines
newlines-body_example = newlines-body shown (record {
  app_version = refl;
  latest_ver = refl;
  status = refl;
  token = refl;
  logs = (refl, tt);
})
