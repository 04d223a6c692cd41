-- ===== src/Core/Effects/Routes.antt =====
-- The events of the routes.
use nxremote_api.Base.{ℕ, ◌*◌, zero, suc, Bool, Option, none, some, List, [], ◌∷◌, refl, ◌==◌}
use nxremote_api.Base.Int.{ℤ, pos}
use nxremote_api.Base.Text.{Bytes, codes}
use nxremote_api.CString.Search.{strstr}
use nxremote_api.JsonSafeAccess.{Json, IsLawful}
use nxremote_api.JsonSafeAccess.Total.{get_string_lem, get_int_lem}
use nxremote_api.Config.{Saved}
use nxremote_api.HttpFraming.{blank_line}
use nxremote_api.Core.World.{Storage, Platform}
use nxremote_api.Core.Command.{
  send_sized, answer_command, launch_app, run_action, command_body, handle_command,
}
use nxremote_api.Core.Control.{
  make_dirs, write_settings, save_events, spsm, load_config, handle_reboot, handle_shutdown,
  handle_sleep, handle_reload_config, handle_launch, handle_update_app,
}
use nxremote_api.Core.Reports.{
  Titles, title_of, titles_of, list_ids, list_titles, scan_storages, handle_titles, handle_logs,
  handle_launch_status, is_seen,
}
use nxremote_api.Core.Screenshot.{malloc, send_rows, send_bitmap, handle_screenshot, width, height}
use nxremote_api.Core.Button.{
  press_step, press_all, press_one, press_named, handle_button, handle_button_disabled,
  button_sequence,
}
use nxremote_api.Core.Request.{post_route, route}
use nxremote_api.Core.Effects.{
  is_inner, is_mild, is_basic, mild, mild_inner, inner, Only, effects, Only-pure, Only-get,
  Only-bind, Only-seq, Only-emit, Only-ask, Only-modify, Only-when, Only-bool, Only-option, Only-if,
  Only-or_abort, Only-trace, Only-log_i, Only-log_e, Only-send,
}
use nxremote_api.Core.Effects.Actions.{Only-launch}

pub Only-make_dirs : (dirs : List Bytes) → Only is_mild (make_dirs dirs)
unfolding make_dirs
Only-make_dirs [] = search effects
Only-make_dirs (d ∷ dirs) = Only-seq (Only-emit _ refl) (Only-make_dirs dirs)

Only-write_settings : (text : Option Bytes) → Only is_mild (write_settings text)
unfolding write_settings
Only-write_settings none = search effects
Only-write_settings (some text) = search effects

Only-save_events : (saved : Option Saved) → Only is_mild (save_events saved)
unfolding save_events
Only-save_events none = search effects
Only-save_events (some saved) = search (effects, Only-make_dirs, Only-write_settings)

module _ (p : Platform) where
  pub Only-load_config : Only is_mild (load_config p)
  unfolding load_config
  Only-load_config = Only-bind (Only-ask _ _ refl) λ file. Only-bind (Only-ask _ _ refl) λ tick.
      Only-bind (Only-ask _ _ refl) λ adjective. Only-bind (Only-ask _ _ refl) λ noun.
        Only-bind (Only-ask _ _ refl) λ writable.
          Only-bind Only-get
            λ s. Only-seq (Only-modify _ (λ c. refl) λ c k. refl) (Only-save_events _)

  pub Only-send_sized : (room : ℕ) (body : Bytes) → Only is_basic (send_sized p room body)
  unfolding send_sized
  Only-send_sized room body = search (effects, Only-send p)

  Only-title_of : (id : ℕ) (t : Titles) → Only is_basic (title_of p id t)
  unfolding title_of
  Only-title_of id t = Only-bool (is_seen id t.seen_ids) (Only-pure _) (
      Only-bind (Only-ask _ _ refl) λ allocated.
        Only-bool allocated (Only-bind (Only-ask _ _ refl) λ control. Only-pure _) (Only-pure _))

  Only-titles_of : (ids : List ℕ) (t : Titles) → Only is_basic (titles_of p ids t)
  unfolding titles_of
  Only-titles_of [] t = Only-pure t
  Only-titles_of (id ∷ ids) t = Only-bind (Only-title_of _ t) λ t'. Only-titles_of ids t'

  Only-list_ids : (storage : Storage) (n : ℕ) (t : Titles) → Only is_basic (list_ids p storage n t)
  unfolding list_ids
  Only-list_ids storage n t = Only-bind (Only-ask _ _ refl) λ allocated.
      Only-bool allocated
        (Only-bind (Only-ask _ _ refl)
          λ keys. Only-option keys (Only-pure t) λ ids. Only-titles_of ids t)
        (Only-pure t)

  Only-list_titles : (storage : Storage) (t : Titles) → Only is_basic (list_titles p storage t)
  unfolding list_titles
  Only-list_titles storage t = search (effects, Only-trace p, Only-list_ids) depth 20

  Only-scan : (storages : List Storage) (t : Titles) → Only is_basic (scan_storages p storages t)
  unfolding scan_storages
  Only-scan [] t = Only-pure t
  Only-scan (storage ∷ rest) t =
      search (effects, Only-trace p, Only-list_titles, Only-scan rest) depth 20

  pub Only-titles : Only is_basic (handle_titles p)
  unfolding handle_titles
  Only-titles = search (effects, Only-scan, Only-send_sized)

  pub Only-logs : Only is_basic (handle_logs p)
  unfolding handle_logs
  Only-logs = search (effects, Only-send_sized)

  pub Only-launch_status : (j : Json) → Only is_basic (handle_launch_status p j)
  unfolding handle_launch_status
  Only-launch_status j = search (effects, Only-send_sized)

  Only-send_rows : (rows : ℕ) (screen : Bytes) → Only is_basic (send_rows p rows screen)
  unfolding send_rows
  Only-send_rows zero screen = Only-pure tt
  Only-send_rows (suc rows) screen = Only-seq (Only-send p _) (Only-send_rows rows _)

  Only-malloc : (size : ℕ) → Only is_basic (malloc p size)
  unfolding malloc
  Only-malloc size = Only-ask _ _ refl

  Only-send_bitmap : (screen : Bytes) → Only is_basic (send_bitmap p screen)
  unfolding send_bitmap
  Only-send_bitmap screen = Only-seq (Only-send p _) (
      Only-seq (Only-send p _) (
        Only-seq (Only-send p _) (
          Only-bind (Only-malloc (width * 3))
            λ allocated. Only-bool allocated (Only-send_rows height screen) (Only-pure tt))))

  pub Only-screenshot : Only is_basic (handle_screenshot p)
  unfolding handle_screenshot
  Only-screenshot = Only-bind Only-get λ s.
      Only-bool s.capssc_ready
        (Only-bind (Only-malloc (width * height * 4)) λ allocated.
          Only-bool allocated
            (Only-bind (Only-ask _ _ refl)
              λ screen. Only-option screen (Only-send p _) Only-send_bitmap)
            (Only-send p _))
        (Only-send p _)

  Only-reboot : Only is_inner (handle_reboot p)
  unfolding handle_reboot spsm
  Only-reboot = search (effects, inner, Only-log_i p, Only-send p)

  Only-shutdown : Only is_inner (handle_shutdown p)
  unfolding handle_shutdown spsm
  Only-shutdown = search (effects, inner, Only-log_i p, Only-send p)

  Only-update_app : Only is_inner (handle_update_app p)
  unfolding handle_update_app spsm
  Only-update_app = search (effects, inner, Only-send p)

  Only-sleep : Only is_inner (handle_sleep p)
  unfolding handle_sleep
  Only-sleep = search (effects, inner, Only-log_i p, Only-log_e p, Only-send p) depth 12

  pub Only-reload_config : Only is_mild (handle_reload_config p)
  unfolding handle_reload_config
  Only-reload_config = search (effects, mild, Only-log_i p, Only-load_config, Only-send p)

  Only-press_step : (btn_bit : ℕ) (duration : ℤ) → Only is_inner (press_step p btn_bit duration)
  unfolding press_step
  Only-press_step btn_bit duration = Only-bool (btn_bit == 0) (Only-pure tt) (
      Only-seq (Only-emit _ refl)
        (Only-seq (Only-emit _ refl) (Only-seq (Only-emit _ refl) (Only-emit _ refl))))

  Only-press_one : (btn_bit : ℕ) → Only is_inner (press_one p btn_bit)
  unfolding press_one
  Only-press_one btn_bit = Only-bool (btn_bit == 0) (inner (Only-send p _)) (
      Only-seq (Only-emit _ refl)
        (Only-seq (Only-emit _ refl) (Only-seq (Only-emit _ refl) (inner (Only-send p _)))))

  Only-press_named : (buffer : Bytes) → Only is_inner (press_named p buffer)
  unfolding press_named
  Only-press_named buffer =
      Only-option (strstr buffer (codes "name=")) (inner (Only-send p _))
        λ name_ptr. Only-press_one _

  Only-button_disabled : Only is_basic (handle_button_disabled p)
  unfolding handle_button_disabled
  Only-button_disabled = Only-send p _

  module _ (j : Json) (laws : IsLawful j) where
    Only-press_all : (steps : List j.Value) → Only is_inner (press_all p j steps)
    unfolding press_all
    Only-press_all [] = Only-pure tt
    Only-press_all (step ∷ steps) =
        let (name, reads_name, _) = get_string_lem j laws step (codes "button") [] in
        let (duration, reads_duration, _) =
          get_int_lem j laws step (codes "duration_ms") (pos 100) in
        Only-seq
          (Only-or_abort (name, reads_name)
            λ n. Only-or_abort (duration, reads_duration) λ d. Only-press_step _ d)
          (Only-press_all steps)

    Only-button : (buffer : Bytes) → Only is_inner (handle_button p j buffer)
    unfolding handle_button
    Only-button buffer =
        Only-option (button_sequence j buffer) (Only-press_named buffer)
          λ steps. Only-seq (Only-press_all steps) (inner (Only-send p _))

    Only-handle_launch : (buffer : Bytes) → Only is_inner (handle_launch p j buffer)
    unfolding handle_launch
    Only-handle_launch buffer =
        Only-option (strstr buffer (codes "title_id=0x")) (inner (Only-send p _)) λ id_ptr.
          Only-seq (inner (Only-send p _)) (
            Only-seq (inner (Only-log_i p _))
              (Only-bind (Only-launch p j laws _) λ rc. Only-when _ (inner (Only-log_e p _))))

    Only-launch_app : (request : j.Value) → Only is_inner (launch_app p j request)
    unfolding launch_app answer_command
    Only-launch_app request =
        let (tid, reads, _) = get_string_lem j laws request (codes "title_id") [] in
        Only-or_abort (tid, reads)
          λ tid_str. Only-bind (Only-launch p j laws _) λ rc. inner (Only-send_sized _ _)

    Only-answer : (rc : ℕ) → Only is_inner (answer_command p rc)
    unfolding answer_command
    Only-answer rc = inner (Only-send_sized _ _)

    Only-run_action :
        (request : j.Value) (action : Bytes) → Only is_inner (run_action p j request action)
    unfolding run_action spsm
    Only-run_action request action = search (effects, inner, Only-answer, Only-launch_app) depth 20

    Only-command : (buffer : Bytes) → Only is_inner (handle_command p j buffer)
    unfolding handle_command command_body
    Only-command buffer = Only-option (strstr buffer blank_line) (Only-pure tt) λ body.
        Only-option (j.parse _) (inner (Only-send p _)) λ request.
          Only-bool (j.contains request (codes "action"))
            (let (action, reads, _) = get_string_lem j laws request (codes "action") [] in
              Only-or_abort (action, reads) (Only-run_action request))
            (inner (Only-send p _))

    Only-post_route : (ready : Bool) (buffer : Bytes) → Only is_inner (post_route p j ready buffer)
    unfolding post_route
    Only-post_route ready buffer = Only-if _ Only-reboot (
        Only-if _ Only-shutdown (
          Only-if _ Only-sleep (
            Only-if _ (mild_inner Only-reload_config) (
              Only-if _ (Only-handle_launch buffer) (
                Only-if _ Only-update_app (
                  Only-if _ (inner Only-button_disabled)
                    (Only-if _ (Only-button buffer) (inner (Only-send p _)))))))))

    pub Only-route : (ready : Bool) (buffer : Bytes) → Only is_inner (route p j ready buffer)
    unfolding route
    Only-route ready buffer = Only-if _ (inner Only-titles) (
        Only-if _ (inner Only-screenshot) (
          Only-if _ (Only-command buffer) (
            Only-if _ (inner (Only-launch_status j))
              (Only-if _ (inner Only-logs) (Only-post_route ready buffer)))))
