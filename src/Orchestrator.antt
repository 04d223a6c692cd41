-- ===== src/Orchestrator.antt =====
-- firmware/orchestrator/main.cpp: the process that starts the core, watches it and restarts it. What
-- it does is a list of actions, the newest first, and what the system answers is a function of that
-- list: so a statement for every `Machine` is one for every behaviour of the console and its clients.
pub mod Health
pub mod Restart
pub mod Start
pub mod Sockets
pub mod Main
pub mod Views
pub mod Single
use nxremote_api.Base.{
  ℕ, zero, suc, ◌+◌, ◌-◌, ◌*◌, ◌%◌, ◌^◌, Bool, true, false, ◌&&◌, ◌||◌, Option, none, some, List,
  [], ◌∷◌, ◌++◌, leb, ◌==◌, take, if◌then◌else◌,
}
use nxremote_api.Base.Int.{ℤ}
use nxremote_api.Base.Text.{Bytes, codes}
use nxremote_api.CString.Search.{c_str, contains}
use nxremote_api.CString.Format.{snprintf, decimal, signed_decimal, hex}

pub data Action : Type 0 where
  logged : Bytes → Action
  launched : Action
  terminated : Action
  waited : Action
  cleaned : ℕ → Action
  probed : ℤ → Action
  received : Action
  answered : Bytes → Action
  closed : Action
  ticked : Action
  -- The start: waits, directories, the load of the settings, and calls that only answer.
  slept : ℕ → Action
  made_dir : Bytes → Action
  loaded : Action
  asked : Action
  -- A socket of the control port, by its descriptor.
  opened_socket : ℤ → Action
  closed_socket : ℤ → Action

abbrev pub History : Type 0
History = List Action

-- How `connect` of a socket that does not block returns.
pub data Connect : Type 0 where
  connected in_progress refused : Connect

-- One slice of the wait for an event of the process manager: nothing was signalled, the event could
-- not be read, or an event of a process.
pub data Slice : Type 0 where
  silent unread : Slice
  event : ℕ → ℕ → Slice

pub record Machine : Type 0 where
  -- Whether the log can be opened, and its clock.
  pub can_log : History → Bool
  pub time : History → ℤ
  -- `pmshellLaunchProgram`: the result code and the process id.
  pub launch : History → ℕ × ℕ
  pub terminate : History → ℕ
  pub cleanup : History → ℕ
  pub wait : History → Slice
  -- The numbers that libnx gives the two events of an end.
  pub exit_event : ℕ
  pub crash_event : ℕ
  -- The probe of a port: its socket, `connect`, `select`, and whether the socket's error is 0.
  pub socket : History → Bool
  pub connect : History → ℤ → Connect
  pub writable : History → Bool
  pub no_error : History → Bool
  -- What a client of the control port sent, nothing if it is not ready.
  pub request : History → Bytes
  pub tick : History → ℕ
  pub tick_freq : ℕ

pub record Orchestrator : Type 0 where
  pub core_pid : ℕ
  pub consecutive_health_failures : ℕ
  pub last_health_check : ℕ
  pub actions : History

abbrev pub health_check_interval_sec : ℕ
health_check_interval_sec = 15

abbrev pub health_check_fail_threshold : ℕ
health_check_fail_threshold = 3

abbrev pub act : Action → Orchestrator → Orchestrator
act a o = record o { actions = a ∷ o.actions }

abbrev crlf : Bytes
crlf = 13 ∷ 10 ∷ []

-- The three answers of the control port.
abbrev pub plain : Bytes → Bytes → Bytes
plain status body =
    codes "HTTP/1.1 " ++ status ++ crlf ++ codes "Connection: close" ++ crlf ++ crlf ++ body

unfoldable pub reply : Bool → Bool → Bytes
reply false is_restart = plain (codes "401 Unauthorized") (codes "{\"error\": \"Unauthorized\"}")
reply true true = plain (codes "200 OK") (codes "{\"status\": \"ok\"}")
reply true false = plain (codes "404 Not Found") []

module _ (m : Machine) where
  unfoldable pub log_line : Bytes → Orchestrator → Orchestrator
  log_line msg o =
      if m.can_log o.actions
      then act (logged (codes "[" ++ signed_decimal (m.time o.actions) ++ codes "] " ++ msg)) o
      else o

  unfoldable pub launch_core : Orchestrator → ℕ × Orchestrator
  unfolding log_line
  launch_core o =
      let (rc, pid) = m.launch o.actions in
      let o' = act launched o in
      (
        rc,
        (if rc == 0
            then log_line (snprintf 64 (codes "[LAUNCH] pid=" ++ hex 16 pid))
                (record o' { core_pid = pid })
            else o'),
      )

  -- Whether an event is the end of the process.
  abbrev pub is_end : ℕ → ℕ → ℕ → Bool
  is_end target kind pid = pid == target && (kind == m.exit_event || kind == m.crash_event)

  -- A round of the loop of `terminate_core`, with the rounds after it.
  unfoldable pub after_slice :
      ℕ → Slice → (Orchestrator → Bool × Orchestrator) → Orchestrator → Bool × Orchestrator
  unfolding log_line
  after_slice target silent next o = next o
  after_slice target unread next o = next o
  after_slice target (event kind pid) next o =
      let o' =
        log_line
          (snprintf 80 (codes "[TERM] pm event=" ++ decimal kind ++ codes " pid=" ++ hex 16 pid))
          o in
      if is_end target kind pid then (true, o') else next o'

  -- The loop, with the slices left; whether the process ended.
  unfoldable pub await_exit : ℕ → ℕ → Orchestrator → Bool × Orchestrator
  unfolding after_slice
  await_exit zero target o = (false, o)
  await_exit (suc slices) target o =
      after_slice target (m.wait o.actions) (await_exit slices target) (act waited o)

  abbrev pub log_unless : Bool → Orchestrator → Orchestrator
  log_unless exited o =
      if exited
      then o
      else log_line (codes "[TERM] timed out waiting for exit event, cleaning up anyway") o

  -- `terminate_core` of a process that is tracked.
  unfoldable pub terminate_tracked : ℕ → Orchestrator → Orchestrator
  unfolding await_exit
  terminate_tracked target o =
      let rc = m.terminate o.actions in
      let o1 =
        log_line
          (snprintf 80
            (codes "[TERM] TerminateProgram rc=" ++ hex 8 rc ++ codes " pid=" ++ hex 16 target))
          (act terminated o) in
      let (exited, o2) = await_exit 15 target o1 in
      let o3 = log_unless exited o2 in
      let crc = m.cleanup o3.actions in
      record (log_line (snprintf 64 (codes "[TERM] CleanupProcess rc=" ++ hex 8 crc))
        (act (cleaned target) o3)) { core_pid = 0 }

  unfoldable pub terminate_core : Orchestrator → Orchestrator
  unfolding terminate_tracked
  terminate_core o =
      if o.core_pid == 0
      then log_line (codes "[TERM] no tracked pid, skipping") o
      else terminate_tracked o.core_pid o

  unfoldable pub restart_core : Bytes → Orchestrator → Orchestrator
  unfolding terminate_core launch_core
  restart_core reason o =
      let o1 = terminate_core (log_line (snprintf 96 (codes "[RESTART] " ++ reason)) o) in
      let (rc, o2) = launch_core o1 in
      log_line (snprintf 96 (codes "[RESTART] launch_core rc=" ++ hex 8 rc)) o2

  unfoldable pub core_is_alive : ℤ → History → Bool
  core_is_alive port h =
      if m.socket h
      then (elim (m.connect h port) [
        | connected ↦ true
        | in_progress ↦ m.writable h && m.no_error h
        | refused ↦ false
      ])
      else false

  unfoldable pub handle_control_client : Bytes → Orchestrator → Orchestrator
  unfolding restart_core reply
  handle_control_client token o =
      let buffer = c_str (take 511 (m.request o.actions)) in
      let authed = contains buffer (snprintf 160 (codes "X-API-Token: " ++ token)) in
      let is_restart = contains buffer (codes "POST /self_restart") in
      let o' = act closed (act (answered (reply authed is_restart)) (act received o)) in
      if authed && is_restart then restart_core (codes "self_restart requested") o' else o'

  -- What the outcome of a probe does.
  unfoldable pub note_probe : Bool → Orchestrator → Orchestrator
  note_probe true o = record o { consecutive_health_failures = 0 }
  note_probe false o =
      let n = o.consecutive_health_failures + 1 in
      let o' =
        log_line (snprintf 64 (codes "[HEALTH] core unreachable (" ++ decimal n ++ codes "/3)"))
          (record o { consecutive_health_failures = n }) in
      if leb health_check_fail_threshold n
      then record (restart_core (codes "health check failed") o') {
        consecutive_health_failures = 0;
      }
      else o'

  -- The end of a round of the loop of `main`.
  unfoldable pub check_health : ℤ → Orchestrator → Orchestrator
  unfolding note_probe core_is_alive
  check_health port o =
      let now = m.tick o.actions in
      let o' = act ticked o in
      if leb (health_check_interval_sec * m.tick_freq % 2 ^ 64)
        ((now + 2 ^ 64 - o.last_health_check) % 2 ^ 64)
      then note_probe (core_is_alive port o'.actions)
          (act (probed port) (record o' { last_health_check = now }))
      else o'

  -- A round of the loop, with or without a client.
  unfoldable pub round : Bytes → ℤ → Bool → Orchestrator → Orchestrator
  unfolding check_health handle_control_client
  round token port client o =
      check_health port (if client then handle_control_client token o else o)
