-- ===== src/Companion/Loop/Window.antt =====
-- What the screen shows of the messages.
use nxremote_api.Base.{
  ◌-◌, ◌≤◌, List, ◌++◌, length, take_all, ltb, ltb→le, Bool-cases, inl, inr, ◌≡◌, ap, ◌∙◌, arith,
}
use nxremote_api.Base.Text.{Bytes}
use nxremote_api.Companion.World.{Device, App}
use nxremote_api.Companion.Log.{add_all}
use nxremote_api.Companion.Log.Last.{last, last-last, length-last, at_index, logs-add_all}
use nxremote_api.Companion.Terminal.{log_window}

log_window-last : (logs : List Bytes) → log_window logs ≡ last 27 logs
unfolding log_window
log_window-last logs = elim (Bool-cases (ltb 27 (length logs))) [
  | inl long ↦ rw long (take_all 27 (last 27 logs) (length-last 27 logs))
  | inr short ↦ rw short (
      take_all 27 logs (ltb→le 27 (length logs) short)
      ∙ at_index logs 0 (length logs - 27) (omega (arith, ltb→le 27 (length logs) short)))
]

-- The screen shows the last 27 of all messages that the application was given, in their order, if the list
-- held no more than 31 before.
pub log_window-add_all :
    (d : Device) (ms : List Bytes) (s : App)
    → length s.app_logs ≤ 31
    → log_window (add_all d ms s).1.app_logs ≡ last 27 (s.app_logs ++ ms)
log_window-add_all d ms s h =
    ap log_window (logs-add_all d ms s h).0
    ∙ log_window-last (last 31 (s.app_logs ++ ms))
    ∙ last-last 27 31 (s.app_logs ++ ms) (omega arith)
