-- ===== src/Core/Info.antt =====
-- GET /info: the readings of the console in one JSON object.
use nxremote_api.Base.{ℕ, ◌/◌, Bool, true, false, none, some, ◌++◌, ◌==◌, if◌then◌else◌}
use nxremote_api.Base.Int.{ℤ, pos, to_bits}
use nxremote_api.Base.Text.{Bytes, codes}
use nxremote_api.CString.Search.{c_str}
use nxremote_api.CString.Format.{snprintf, decimal, signed_decimal, hex}
use nxremote_api.Core.World.{ticked, asked, Platform, M, pure, ◌>>=◌, ◌>>◌, ask, get, trace}
use nxremote_api.Core.Net.{send_timeout, close}
use nxremote_api.Core.Control.{json_response}

-- What is read before the response is written.
pub record Readings : Type 0 where
  pub firmware : ℕ × ℕ × ℕ
  pub battery_percent : ℕ
  pub charger_type : ℕ
  pub temperature : ℤ
  pub uptime_s : ℕ
  pub rssi : ℕ
  pub total_mem : ℕ
  pub used_mem : ℕ
  pub arena : ℕ
  pub uordblks : ℕ
  pub sd_total : ℕ
  pub sd_free : ℤ
  pub title_id : ℕ
  pub title_name : Bytes
  pub is_docked : Bool

abbrev bool_text : Bool → Bytes
bool_text true = codes "true"
bool_text false = codes "false"

-- A member of the object, with the comma that stands before it.
abbrev member : Bytes → Bytes → Bytes
member key value = codes ", \"" ++ key ++ codes "\": " ++ value

abbrev quoted : Bytes → Bytes
quoted text = codes "\"" ++ text ++ codes "\""

version_text : ℕ × ℕ × ℕ → Bytes
version_text (major, minor, micro) =
    decimal major ++ codes "." ++ decimal minor ++ codes "." ++ decimal micro

-- The object, by the format of the source.
unfoldable pub info_body : Bytes → ℕ → Readings → Bytes
unfolding version_text
info_body app_version error_count r =
    codes "{\"firmware_version\": "
    ++ quoted (version_text r.firmware)
    ++ member (codes "app_version") (quoted app_version)
    ++ member (codes "battery_level") (decimal r.battery_percent)
    ++ member (codes "charging") (bool_text (if r.charger_type == 0 then false else true))
    ++ member (codes "cpu_temp") (signed_decimal r.temperature)
    ++ member (codes "gpu_temp") (signed_decimal r.temperature)
    ++ member (codes "skin_temp") (signed_decimal r.temperature)
    ++ member (codes "uptime") (decimal r.uptime_s)
    ++ member (codes "wifi_rssi") (decimal r.rssi)
    ++ member (codes "mem_total") (decimal r.total_mem)
    ++ member (codes "mem_used") (decimal r.used_mem)
    ++ member (codes "heap_arena") (decimal r.arena)
    ++ member (codes "heap_used") (decimal r.uordblks)
    ++ member (codes "sd_total") (decimal r.sd_total)
    ++ member (codes "sd_free") (decimal (to_bits 64 r.sd_free))
    ++ member (codes "current_title_id") (quoted (codes "0x" ++ hex 16 r.title_id))
    ++ member (codes "current_game") (quoted r.title_name)
    ++ member (codes "docked") (bool_text r.is_docked)
    ++ member (codes "sleep_mode") (bool_text false)
    ++ member (codes "error_count") (decimal error_count)
    ++ codes "}"

module _ (p : Platform) where
  -- The size of the SD card: 0 if the device does not open or does not tell.
  unfoldable pub read_sd_total : M ℕ
  read_sd_total = do
    opens ← ask p.sd_device asked
    elim opens [
      | false ↦ do trace p (codes "info: fsOpenDeviceOperator FAILED"); pure 0
      | true ↦ do
        trace p (codes "info: fsOpenDeviceOperator ok")
        size ← ask p.sd_size asked
        pure (elim size [ none ↦ 0 | some n ↦ n ])
    ]

  unfoldable pub read_sd_free : M ℤ
  read_sd_free = do
    opens ← ask p.sd_file_system asked
    elim opens [
      | false ↦ do trace p (codes "info: fsOpenSdCardFileSystem FAILED"); pure (pos 0)
      | true ↦ do trace p (codes "info: fsOpenSdCardFileSystem ok"); ask p.sd_free asked
    ]

  -- The name of a title: "None" unless its control data and their language entry can be read.
  unfoldable pub read_name : ℕ → M Bytes
  read_name title_id = do
    allocated ← ask (λ h. p.allocates h 0) asked
    elim allocated [
      | false ↦ pure (codes "None")
      | true ↦ do
        trace p (codes "info: before nsGetApplicationControlData")
        control ← ask (λ h. p.control_data h title_id) asked
        elim control [
          | none ↦ do
            trace p (codes "info: nsGetApplicationControlData FAILED")
            pure (codes "None")
          | some name ↦ do
            trace p (codes "info: after nsGetApplicationControlData ok")
            pure (elim name [ none ↦ codes "None" | some n ↦ snprintf 512 (c_str n) ])
        ]
    ]

  -- The running application's id and name.
  unfoldable pub read_title : M (ℕ × Bytes)
  unfolding read_name
  read_title = do
    app_pid ← ask p.application_pid asked
    elim app_pid [
      | none ↦ do
        trace p (codes "info: pmdmnt - no application running (home menu)")
        pure (0, codes "None")
      | some pid ↦ do
        trace p (codes "info: pmdmnt - application running")
        program ← ask (λ h. p.program_id h pid) asked
        elim program [
          | none ↦ pure (0, codes "None")
          | some title_id ↦ do name ← read_name title_id; pure (title_id, name)
        ]
    ]

  unfoldable pub read_all : M Readings
  unfolding read_sd_total read_sd_free read_title
  read_all = do
    firmware ← ask p.firmware_version asked
    trace p (codes "info: after setsys")
    battery_percent ← ask p.battery_percent asked
    charger_type ← ask p.charger_type asked
    trace p (codes "info: after psm")
    temperature ← ask p.temperature asked
    trace p (codes "info: after ts")
    tick ← ask p.tick ticked
    rssi ← ask p.wifi_rssi asked
    trace p (codes "info: after nifm")
    total_mem ← ask p.total_memory asked
    used_mem ← ask p.used_memory asked
    trace p (codes "info: after svcGetInfo")
    arena ← ask p.heap_arena asked
    uordblks ← ask p.heap_used asked
    trace p (codes "info: after mallinfo")
    sd_total ← read_sd_total
    trace p (codes "info: after fs_op block")
    sd_free ← read_sd_free
    trace p (codes "info: after sd_fs block")
    title ← read_title
    trace p (codes "info: after title block")
    trace p (codes "info: before apmGetPerformanceMode")
    perf ← ask p.performance asked
    trace p (snprintf 64 (codes "info: after apmGetPerformanceMode rc=" ++ hex 8 perf.0))
    pure (record {
      firmware = firmware;
      battery_percent = battery_percent;
      charger_type = charger_type;
      temperature = temperature;
      uptime_s = tick / 19200000;
      rssi = rssi;
      total_mem = total_mem;
      used_mem = used_mem;
      arena = arena;
      uordblks = uordblks;
      sd_total = sd_total;
      sd_free = sd_free;
      title_id = title.0;
      title_name = title.1;
      is_docked = perf.1;
    })

  unfoldable pub handle_info : M (Unit {0})
  unfolding read_all info_body
  handle_info = do
    trace p (codes "info: start")
    r ← read_all
    trace p (codes "info: before snprintf")
    s ← get
    let response =
        snprintf 2048
          (json_response (codes "200 OK") (info_body p.app_version s.logger.error_count r))
    trace p (codes "info: after snprintf, before send_timeout")
    sent ← send_timeout p response
    trace p
        (snprintf 64 (codes "handle_client: /info send_timeout returned " ++ signed_decimal sent))
    close p
    trace p (codes "handle_client: /info done, closed")
