-- ===== src/Core/Request.antt =====
-- `handle_client`: the reading of a request, the check of its token, and the routes.
use nxremote_api.Base.{
  ℕ, zero, suc, ◌+◌, ◌-◌, ◌*◌, ◌^◌, Bool, true, false, not, ◌&&◌, ◌||◌, Option, none, some, [], ◌∷◌,
  ◌++◌, length, ltb, leb, if◌then◌else◌,
}
use nxremote_api.Base.Text.{Bytes, codes}
use nxremote_api.CString.Search.{c_str, starts_with, contains}
use nxremote_api.CString.Format.{snprintf, signed_decimal}
use nxremote_api.JsonSafeAccess.{Json}
use nxremote_api.HttpFraming.{has_complete_body, has_valid_api_token}
use nxremote_api.Core.World.{ticked, Platform, M, pure, ◌>>=◌, ◌>>◌, ask, get, u64, log_i, trace}
use nxremote_api.Core.Net.{count_of, recv_timeout, send, close}
use nxremote_api.Core.Album.{poll_album_launcher_completion}
use nxremote_api.Core.Command.{handle_command}
use nxremote_api.Core.Control.{
  plain_response, json_response, error_body, load_config, handle_reboot, handle_shutdown,
  handle_sleep, handle_reload_config, handle_launch, handle_update_app,
}
use nxremote_api.Core.Reports.{handle_launch_status, handle_logs, handle_titles}
use nxremote_api.Core.Info.{handle_info}
use nxremote_api.Core.Screenshot.{handle_screenshot}
use nxremote_api.Core.Button.{handle_button, handle_button_disabled}

-- `sizeof(buffer) - 1`.
abbrev pub buffer_room : ℕ
buffer_room = 2047

abbrev bit_text : Bool → Bytes
bit_text true = codes "1"
bit_text false = codes "0"

-- Whether the bytes so far are a whole request.
abbrev pub is_complete : Bytes → Bool
is_complete raw = has_complete_body (c_str raw) (length raw)

-- The difference of two readings of the tick counter.
abbrev pub elapsed : ℕ → ℕ → ℕ
elapsed now start = u64 (now + 2 ^ 64 - u64 start)

unfoldable pub unauthorized : Bytes
unauthorized = json_response (codes "401 Unauthorized") (error_body (codes "Unauthorized"))

unfoldable pub request_timeout : Bytes
request_timeout =
    json_response (codes "408 Request Timeout") (error_body (codes "Request body timeout"))

unfoldable pub not_found : Bytes
not_found = plain_response (codes "404 Not Found") []

-- `requires_auth`.
unfoldable pub requires_auth : Bytes → Bool
requires_auth buffer =
    not (starts_with (codes "GET /info") buffer || starts_with (codes "GET /health") buffer)

module _ (p : Platform) where
  -- The loop that waits for the body, on the bytes so far. `none` is the deadline; every round adds a
  -- byte at least, so the room of the buffer is enough fuel.
  unfoldable pub await_body : ℕ → ℕ → Bytes → M (Option Bytes)
  await_body zero start raw = pure (some raw)
  await_body (suc fuel) start raw = elim (is_complete raw || leb buffer_room (length raw)) [
    | true ↦ pure (some raw)
    | false ↦ do
      now ← ask p.tick ticked
      elim (ltb (u64 (10 * p.tick_freq)) (elapsed now start)) [
        | true ↦ do
          log_i p (codes "body-wait: total deadline exceeded, dropping connection")
          pure none
        | false ↦ do
          more ← recv_timeout p (buffer_room - length raw)
          log_i p (
              snprintf 64
                (codes "body-wait: retry recv_timeout returned " ++ signed_decimal (count_of more)))
          elim more [
            | none ↦ pure (some raw)
            | some bytes ↦ elim bytes [
              | [] ↦ pure (some raw)
              | x ∷ xs ↦ await_body fuel start (raw ++ x ∷ xs)
            ]
          ]
      ]
  ]

  -- The second look at the token, after the settings are read again.
  unfoldable pub check_reloaded : Bytes → M Bool
  check_reloaded buffer = do
    load_config p
    s ← get
    pure (has_valid_api_token buffer s.config.api_token)

  unfoldable pub check_token : Bytes → M Bool
  unfolding check_reloaded
  check_token buffer = do
    s ← get
    elim (has_valid_api_token buffer s.config.api_token) [
      | true ↦ pure true
      | false ↦ check_reloaded buffer
    ]

  -- Whether the request may be served.
  unfoldable pub authorize : Bytes → M Bool
  unfolding check_token
  authorize buffer = elim (requires_auth buffer) [ false ↦ pure true | true ↦ check_token buffer ]

  -- The routes of the `else if` chain.
  unfoldable pub post_route : Json → Bool → Bytes → M (Unit {0})
  post_route j hiddbg_ready buffer =
      if contains buffer (codes "POST /reboot")
      then handle_reboot p
      else if contains buffer (codes "POST /shutdown")
      then handle_shutdown p
      else if contains buffer (codes "POST /sleep")
      then handle_sleep p
      else if contains buffer (codes "POST /reload_config")
      then handle_reload_config p
      else if contains buffer (codes "POST /launch")
      then handle_launch p j buffer
      else if contains buffer (codes "POST /update_app")
      then handle_update_app p
      else if contains buffer (codes "POST /button") && not hiddbg_ready
      then handle_button_disabled p
      else if contains buffer (codes "POST /button")
      then handle_button p j buffer
      else send p not_found

  -- All routes but GET /info, each without its last `close`.
  unfoldable pub route : Json → Bool → Bytes → M (Unit {0})
  unfolding post_route
  route j hiddbg_ready buffer =
      if contains buffer (codes "GET /titles")
      then handle_titles p
      else if contains buffer (codes "GET /screenshot")
      then handle_screenshot p
      else if contains buffer (codes "POST /command")
      then handle_command p j buffer
      else if contains buffer (codes "GET /launch_status")
      then handle_launch_status p j
      else if contains buffer (codes "GET /logs")
      then handle_logs p
      else post_route j hiddbg_ready buffer

  -- The routes of a request that may be served. GET /info closes the socket itself.
  unfoldable pub dispatch : Json → Bool → Bytes → M (Unit {0})
  unfolding route
  dispatch j hiddbg_ready buffer =
      if contains buffer (codes "GET /info")
      then handle_info p
      else (do route j hiddbg_ready buffer; close p)

  -- The answer to a request that may be served, or not.
  unfoldable pub answer : Json → Bool → Bytes → Bool → M (Unit {0})
  unfolding dispatch
  answer j hiddbg_ready buffer true = dispatch j hiddbg_ready buffer
  answer j hiddbg_ready buffer false = do send p unauthorized; close p

  -- A request that was read to its end.
  unfoldable pub serve : Json → Bool → Bytes → M (Unit {0})
  unfolding authorize answer
  serve j hiddbg_ready buffer = do served ← authorize buffer; answer j hiddbg_ready buffer served

  -- A request whose first bytes were read.
  unfoldable pub receive_rest : Json → Bool → Bytes → M (Unit {0})
  unfolding await_body serve
  receive_rest j hiddbg_ready raw = do
    log_i p (
        snprintf 128 (
          codes "body-wait: initial bytes_read="
          ++ signed_decimal (count_of (some raw))
          ++ codes " complete="
          ++ bit_text (is_complete raw)))
    start ← ask p.tick ticked
    whole ← await_body buffer_room start raw
    elim whole [
      | none ↦ do send p request_timeout; close p
      | some bytes ↦ serve j hiddbg_ready (c_str bytes)
    ]

  unfoldable pub drop_client : M (Unit {0})
  drop_client = do close p; trace p (codes "handle_client: early return (no data)")

  unfoldable pub handle_client : Json → M (Unit {0})
  unfolding receive_rest drop_client
  handle_client j = do
    trace p (codes "handle_client: entered")
    poll_album_launcher_completion p j
    s ← get
    first ← recv_timeout p buffer_room
    trace p (
        snprintf 64
          (codes "handle_client: recv_timeout returned " ++ signed_decimal (count_of first)))
    elim first [
      | none ↦ drop_client
      | some bytes ↦ elim bytes [
        | [] ↦ drop_client
        | x ∷ xs ↦ receive_rest j s.hiddbg_ready (x ∷ xs)
      ]
    ]
