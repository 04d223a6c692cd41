-- ===== src/Core/Control.antt =====
-- The routes that answer with a fixed response and act on the console.
use nxremote_api.Base.{not, Option, none, some, List, [], ◌∷◌, ◌++◌, drop}
use nxremote_api.Base.Text.{Bytes, codes}
use nxremote_api.CString.Search.{strstr}
use nxremote_api.CString.Number.{strtoull}
use nxremote_api.CString.Format.{snprintf, hex}
use nxremote_api.JsonSafeAccess.{Json}
use nxremote_api.Config
use nxremote_api.Config.{Config, Seeds, Saved}
use nxremote_api.Core.World.{
  Power, reboot, shutdown, sleep, power, opened, wrote, made_dir, asked, Platform, M, pure, ◌>>=◌,
  ◌>>◌, emit, ask, get, when, modify, log_i, log_e,
}
use nxremote_api.Core.Net.{send}
use nxremote_api.Core.Album.{succeeded}
use nxremote_api.Core.Launch.{launch_program_by_id}

abbrev crlf : Bytes
crlf = 13 ∷ 10 ∷ []

-- `HTTP/1.1 <status>`, then `Connection: close`, the blank line and the body.
unfoldable pub plain_response : Bytes → Bytes → Bytes
plain_response status body =
    codes "HTTP/1.1 " ++ status ++ crlf ++ codes "Connection: close" ++ crlf ++ crlf ++ body

-- The same with the type of a JSON body.
unfoldable pub json_response : Bytes → Bytes → Bytes
json_response status body =
    codes "HTTP/1.1 "
    ++ status
    ++ crlf
    ++ codes "Connection: close"
    ++ crlf
    ++ codes "Content-Type: application/json"
    ++ crlf
    ++ crlf
    ++ body

unfoldable pub ok_response : Bytes
unfolding plain_response
ok_response = plain_response (codes "200 OK") (codes "{\"status\": \"ok\"}")

unfoldable pub error_body : Bytes → Bytes
error_body what = codes "{\"error\": \"" ++ what ++ codes "\"}"

abbrev pub bad_request : Bytes
bad_request = codes "400 Bad Request"

-- The events of a `save`: the directories, and the file if it can be written.
unfoldable pub make_dirs : List Bytes → M (Unit {0})
make_dirs [] = pure tt
make_dirs (d ∷ ds) = do emit (made_dir d); make_dirs ds

unfoldable pub write_settings : Option Bytes → M (Unit {0})
write_settings none = pure tt
write_settings (some text) = emit (wrote Config.config_path text)

unfoldable pub save_events : Option Saved → M (Unit {0})
unfolding make_dirs write_settings
save_events none = pure tt
save_events (some saved) = do make_dirs saved.made; write_settings saved.written

module _ (p : Platform) where
  -- `spsmInitialize(); spsmShutdown(b); spsmExit();`
  unfoldable pub spsm : Power → M (Unit {0})
  spsm act = emit (power act)

  -- `ConfigManager::getInstance().load()`.
  unfoldable pub load_config : M (Unit {0})
  unfolding save_events
  load_config = do
    file ← ask (λ h. p.file h Config.config_path) (opened Config.config_path)
    tick ← ask p.tick asked
    adjective ← ask p.random asked
    noun ← ask p.random asked
    writable ← ask (λ h. p.can_write h Config.config_path) asked
    s ← get
    let seeds : Seeds = record { tick = tick; adjective = adjective; noun = noun }
    let out = Config.load file writable seeds s.config
    modify (λ c. record c { config = out.config })
    save_events out.saved

  unfoldable pub handle_reboot : M (Unit {0})
  unfolding spsm
  handle_reboot = do log_i p (codes "System reboot requested"); send p ok_response; spsm reboot

  unfoldable pub handle_shutdown : M (Unit {0})
  unfolding spsm
  handle_shutdown = do
    log_i p (codes "System shutdown requested")
    send p ok_response
    spsm shutdown

  unfoldable pub handle_sleep : M (Unit {0})
  handle_sleep = do
    log_i p (codes "System sleep requested")
    send p ok_response
    rc_sleep ← ask p.enter_sleep (power sleep)
    when (not (succeeded rc_sleep))
        (log_e p (snprintf 64 (codes "spsm EnterSleep failed rc=" ++ hex 8 rc_sleep)))

  unfoldable pub handle_reload_config : M (Unit {0})
  unfolding load_config
  handle_reload_config = do load_config; log_i p (codes "Config reloaded"); send p ok_response

  unfoldable pub handle_launch : Json → Bytes → M (Unit {0})
  handle_launch j buffer = elim (strstr buffer (codes "title_id=0x")) [
    | none ↦ send p (plain_response bad_request [])
    | some id_ptr ↦ do
      let tid = strtoull (drop 9 id_ptr)
      send p ok_response
      log_i p (snprintf 128 (codes "Launching title ID: 0x" ++ hex 16 tid))
      rc ← launch_program_by_id p j tid
      when (not (succeeded rc))
          (log_e p (snprintf 128 (codes "Failed to launch title ID: 0x" ++ hex 16 tid)))
  ]

  unfoldable pub handle_update_app : M (Unit {0})
  unfolding spsm
  handle_update_app = do
    send p (
        plain_response (codes "200 OK")
          (codes "{\"status\": \"ok\", \"message\": \"App update triggered\"}"))
    spsm reboot
