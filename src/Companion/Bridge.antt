-- ===== src/Companion/Bridge.antt =====
-- The look at the running core: `try_connect`, `is_sysmodule_running` and `fetch_sysmodule_logs`.
use nxremote_api.Base.{
  Bool, true, false, Option, none, some, List, [], ◌∷◌, ◌++◌, ◌==◌, if◌then◌else◌,
}
use nxremote_api.Base.Int.{ℤ, pos, eq_ℤ}
use nxremote_api.Base.Text.{Bytes, codes}
use nxremote_api.CString.Search.{c_str}
use nxremote_api.CString.Format.{snprintf, signed_decimal}
use nxremote_api.JsonSafeAccess.{Json}
use nxremote_api.Core.Album.{text_eq}
use nxremote_api.Companion.World.{
  asked, fetched, aborted, Connect, connected, in_progress, refused, Device, M, pure, ◌>>=◌, ◌>>◌,
  get, modify, emit, ask, colored, value_text,
}
use nxremote_api.Companion.Terminal.{inet_ntoa}
use nxremote_api.Companion.Transfer.{receive}

module _ (d : Device) where
  -- What `try_connect` calls an error.
  unfoldable pub error_text : ℤ → Bytes
  error_text code =
      if eq_ℤ code d.econnrefused
      then codes "Refused (Process Missing?)"
      else if eq_ℤ code d.etimedout
      then codes "Timeout (Blocked)"
      else if eq_ℤ code d.ehostunreach
      then codes "Net Unreachable"
      else snprintf 32 (codes "Error " ++ signed_decimal code)

  -- The error of a connection that is not made at once; `none` is that it was made.
  unfoldable pub await_connect : M (Option ℤ)
  await_connect = do
    ready ← ask d.connects asked
    elim ready [
      | false ↦ pure (some d.etimedout)
      | true ↦ do
        code ← ask d.pending_error asked
        pure (if eq_ℤ code (pos 0) then none else some code)
    ]

  unfoldable pub connect_result : Connect → M (Option ℤ)
  unfolding await_connect
  connect_result connected = pure none
  connect_result in_progress = await_connect
  connect_result (refused code) = pure (some code)

  abbrev pub verdict : Option ℤ → Bytes
  verdict none = []
  verdict (some code) = error_text code

  -- No text stands for a connection that was made.
  unfoldable pub try_connect : Bytes → ℤ → M Bytes
  unfolding connect_result error_text
  try_connect ip port = do
    opens ← ask d.tcp_socket asked
    elim opens [
      | false ↦ pure (codes "Socket Fail")
      | true ↦ do
        how ← ask (λ h. d.connect h ip port) asked
        result ← connect_result how
        pure (verdict result)
    ]

  abbrev status_of : Bytes → Bytes
  status_of [] = codes "Bridge OK"
  status_of (c ∷ cs) = c ∷ cs

  abbrev is_made : Bytes → Bool
  is_made [] = true
  is_made (c ∷ cs) = false

  unfoldable pub is_sysmodule_running : M Bool
  unfolding try_connect
  is_sysmodule_running = do
    s ← get
    err ← try_connect (codes "127.0.0.1") s.config.port
    modify (λ s'. record s' { sys_status_msg = status_of err })
    pure (is_made err)

  module _ (j : Json) where
    abbrev level_color : Bytes → Bytes
    level_color level =
        if text_eq level (codes "ERROR")
        then codes "31"
        else if text_eq level (codes "WARN")
        then codes "33"
        else codes "36"

    -- An entry of the core's log, as it is shown; `none` is an abort.
    unfoldable pub shown_entry : j.Value → Option Bytes
    shown_entry item = elim (value_text j item (codes "level") (codes "INFO")) [
      | none ↦ none
      | some level ↦ elim (value_text j item (codes "message") []) [
        | none ↦ none
        | some message ↦ some (
            snprintf 256 (
              colored (level_color level)
                (codes "[" ++ c_str level ++ codes "] " ++ c_str message)))
      ]
    ]

    unfoldable pub show_entries : List j.Value → M (Unit {0})
    unfolding shown_entry
    show_entries [] = pure tt
    show_entries (item ∷ items) = elim (shown_entry item) [
      | none ↦ emit aborted
      | some entry ↦ do
        modify (λ s. record s { app_logs = s.app_logs ++ entry ∷ [] })
        show_entries items
    ]

    unfoldable pub show_logs : Option j.Value → M (Unit {0})
    unfolding show_entries
    show_logs none = pure tt
    show_logs (some v) = elim (j.is_array v) [
      | false ↦ pure tt
      | true ↦ do modify (λ s. record s { app_logs = [] }); show_entries (j.items v)
    ]

    unfoldable pub fetch_sysmodule_logs : M (Unit {0})
    unfolding show_logs
    fetch_sysmodule_logs = do
      byte ← ask d.fresh_byte asked
      s ← get
      let url = codes "http://127.0.0.1:" ++ signed_decimal s.config.port ++ codes "/logs"
      t ← ask (λ h. d.perform h url) (fetched url)
      out ← receive d t.chunks t.result (record { memory = byte ∷ []; size = 0 })
      elim (out.0 == 0) [ false ↦ pure tt | true ↦ show_logs (j.parse (c_str out.1.memory)) ]

  -- `get_sysmodule_ip`.
  unfoldable pub get_sysmodule_ip : M Bytes
  get_sysmodule_ip = do
    ip ← ask d.ip asked
    pure (if ip == 0 then codes "127.0.0.1" else inet_ntoa ip)
