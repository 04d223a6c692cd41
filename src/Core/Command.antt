-- ===== src/Core/Command.antt =====
-- POST /command: a JSON body with an action.
use nxremote_api.Base.{ℕ, ◌&&◌, true, false, none, some, [], ◌∷◌, ◌++◌, drop, length, if◌then◌else◌}
use nxremote_api.Base.Text.{Bytes, codes}
use nxremote_api.CString.Search.{c_str, strstr}
use nxremote_api.CString.Number.{strtoull}
use nxremote_api.CString.Format.{snprintf, decimal}
use nxremote_api.JsonSafeAccess.{Json, get_string}
use nxremote_api.HttpFraming.{blank_line}
use nxremote_api.Core.World.{reboot, shutdown, Platform, M, pure, ◌>>=◌, ◌>>◌, or_abort}
use nxremote_api.Core.Net.{send}
use nxremote_api.Core.Album.{text_eq}
use nxremote_api.Core.Launch.{launch_program_by_id}
use nxremote_api.Core.Control.{plain_response, bad_request, error_body, spsm}

abbrev crlf : Bytes
crlf = 13 ∷ 10 ∷ []

-- The head of a response that states the length of its JSON body, in a buffer of `room` bytes.
unfoldable pub sized_head : ℕ → Bytes → Bytes
sized_head room body = snprintf room (
    codes "HTTP/1.1 200 OK"
    ++ crlf
    ++ codes "Connection: close"
    ++ crlf
    ++ codes "Content-Type: application/json"
    ++ crlf
    ++ codes "Content-Length: "
    ++ decimal (length body)
    ++ crlf
    ++ crlf)

module _ (p : Platform) where
  unfoldable pub send_sized : ℕ → Bytes → M (Unit {0})
  send_sized room body = do send p (sized_head room body); send p body

  unfoldable pub answer_command : ℕ → M (Unit {0})
  answer_command rc =
      send_sized 256 (codes "{\"status\": \"ok\", \"rc\": " ++ decimal rc ++ codes "}")

  unfoldable pub launch_app : (j : Json) → j.Value → M (Unit {0})
  launch_app j request =
      or_abort (get_string j request (codes "title_id") [])
        λ tid_str. do rc ← launch_program_by_id p j (strtoull (c_str tid_str)); answer_command rc

  unfoldable pub run_action : (j : Json) → j.Value → Bytes → M (Unit {0})
  unfolding launch_app
  run_action j request action =
      if text_eq action (codes "reboot")
      then (do spsm p reboot; answer_command 0)
      else if text_eq action (codes "shutdown")
      then (do spsm p shutdown; answer_command 0)
      else if text_eq action (codes "launch_app") && j.contains request (codes "title_id")
      then launch_app j request
      else answer_command 0

  unfoldable pub command_body : Json → Bytes → M (Unit {0})
  unfolding run_action
  command_body j body = elim (j.parse body) [
    | none ↦ send p (plain_response bad_request (error_body (codes "Missing action")))
    | some request ↦ elim (j.contains request (codes "action")) [
      | false ↦ send p (plain_response bad_request (error_body (codes "Missing action")))
      | true ↦ or_abort (get_string j request (codes "action") []) (run_action j request)
    ]
  ]

  unfoldable pub handle_command : Json → Bytes → M (Unit {0})
  unfolding command_body answer_command
  handle_command j buffer = elim (strstr buffer blank_line) [
    | none ↦ pure tt
    | some body ↦ command_body j (drop 4 body)
  ]
