-- ===== src/Companion/Screen.antt =====
-- `draw_ui`: the text of the screen, from its lines.
pub mod Rows
use nxremote_api.Base.{
  ℕ, zero, suc, ◌-◌, ◌/◌, ◌%◌, ◌^◌, Bool, true, false, not, ◌&&◌, ◌||◌, List, [], ◌∷◌, ◌++◌, take,
  drop, length, replicate, ltb, ◌==◌, if◌then◌else◌,
}
use nxremote_api.Base.Text.{Bytes, codes}
use nxremote_api.CString.Search.{c_str}
use nxremote_api.CString.Format.{decimal, signed_decimal}
use nxremote_api.Core.Album.{text_eq}
use nxremote_api.Companion.Terminal.{
  csi, padded, text_lt, inet_ntoa, log_lines, log_window, edge, rule, bar, title_lines, status_text,
  offer_text, update_text, address_text, empty_row, log_row, log_rows, empty_rows, log_box,
}
use nxremote_api.Companion.World.{asked, printed, App, Device, M, ◌>>=◌, get, emit, ask}

abbrev pub repo_url : Bytes
repo_url = codes "https://github.com/rafaelvieiras/NXRemoteAPI"

-- The lines of the footer, each at a row of its own.
unfoldable pub footer : Bool → Bool → Bytes
footer dev_mode applet_mode =
    csi (codes "40;1H (X)Check  (Y)Update  (ZR)Reset  (-)DevMode  (+)Exit" ++ 10 ∷ [])
    ++ csi (codes "42;1H ")
    ++ csi (codes "1;32mNXRemoteAPI")
    ++ csi (codes "0m - ")
    ++ csi (codes "1;94m" ++ repo_url)
    ++ csi (codes "0m" ++ 10 ∷ [])
    ++ csi (codes "43;1H")
    ++ (if dev_mode
        then codes " "
          ++ csi (codes "45m")
          ++ csi (codes "1;37m DEV MODE ACTIVE ")
          ++ csi (codes "0m  UDP: 2828")
          ++ replicate 38 b' '
        else replicate 80 b' ')
    ++ 10 ∷ csi (codes "44;1H")
    ++ (if applet_mode
        then codes " "
          ++ csi (codes "41m")
          ++ csi (codes "1;37m APPLET MODE ")
          ++ csi (codes "0m Limited RAM. Hold R on game for full mode.")
          ++ replicate 9 b' '
        else replicate 80 b' ')
    ++ 10 ∷ []

unfoldable pub reboot_notice : Bool → Bytes
reboot_notice active =
    if active
    then []
    else csi (codes "20;20H")
      ++ csi (codes "1;41m")
      ++ csi (codes "37m  !!! SYSTEM REBOOT REQUIRED !!!  ")
      ++ csi (codes "0m")
      ++ csi (codes "21;18H")
      ++ csi (codes "1;31m   Atmosphere must restart to load   ")
      ++ csi (codes "0m")
      ++ csi (codes "22;18H")
      ++ csi (codes "1;31m   the sysmodule from /contents/     ")
      ++ csi (codes "0m")

-- The arguments of `draw_ui` and what it reads.
pub record Shown : Type 0 where
  pub app_version : Bytes
  pub latest_ver : Bytes
  pub checking_update : Bool
  pub sysmodule_active : Bool
  pub ip : ℕ
  pub app : App

-- The three lines on the state of the console.
unfoldable pub state_lines : Shown → Bytes
unfolding status_text update_text address_text
state_lines v =
    codes "| Status:"
    ++ csi (codes "11G")
    ++ status_text v.sysmodule_active v.app.sys_status_msg
    ++ csi (codes "38G| ")
    ++ update_text v.checking_update v.latest_ver v.app_version
    ++ edge
    ++ codes "| IP:"
    ++ csi (codes "11G")
    ++ address_text v.ip
    ++ csi (codes "38G| Port: ")
    ++ csi (codes "1m")
    ++ padded 5 (signed_decimal v.app.config.port)
    ++ csi (codes "0m")
    ++ edge
    ++ codes "| Mode: "
    ++ csi (codes "1;32mBalanced  ")
    ++ csi (codes "0m")
    ++ csi (codes "38G| Token: ")
    ++ csi (codes "1;33m")
    ++ padded 25 (c_str v.app.config.api_token)
    ++ csi (codes "0m")
    ++ edge

-- The boxes around three parts of the screen.
unfoldable pub frame : Bytes → Bytes → Bytes → Bytes
frame title lines box =
    title
    ++ rule
    ++ lines
    ++ rule
    ++ codes "| "
    ++ csi (codes "1;34m[ SYSTEM LOGS ]")
    ++ csi (codes "0m")
    ++ replicate 58 b' '
    ++ codes "|"
    ++ 10 ∷ []
    ++ box
    ++ codes "+"
    ++ replicate 74 b'-'
    ++ codes "+"
    ++ 10 ∷ []

-- All that is printed above the footer.
unfoldable pub body : Shown → Bytes
unfolding title_lines state_lines log_box frame
body v = frame (title_lines v.app_version) (state_lines v) (log_box v.app.app_logs)

unfoldable pub screen : Shown → Bytes
unfolding body footer reboot_notice
screen v = body v ++ footer v.app.dev_mode v.app.is_applet_mode ++ reboot_notice v.sysmodule_active

unfoldable pub draw_ui : Device → Bytes → Bool → Bool → M (Unit {0})
unfolding screen
draw_ui d latest_ver checking_update sysmodule_active = do
  ip ← ask d.ip asked
  s ← get
  emit (
      printed (
        screen (record {
          app_version = d.app_version;
          latest_ver = latest_ver;
          checking_update = checking_update;
          sysmodule_active = sysmodule_active;
          ip = ip;
          app = s;
        })))
