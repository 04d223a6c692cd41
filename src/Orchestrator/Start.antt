-- ===== src/Orchestrator/Start.antt =====
-- The start of `main`, and `create_control_socket`.
use nxremote_api.Base.{ℕ, Bool, true, false, Option, none, some, ◌++◌, ◌==◌}
use nxremote_api.Base.Int.{ℤ, pos, negsuc}
use nxremote_api.Base.Text.{Bytes, codes}
unfoldable pub use nxremote_api.Base.State.{pure, ◌>>=◌, ◌>>◌, get, modify}
use nxremote_api.Base.State.{State}
use nxremote_api.CString.Format.{snprintf, hex}
use nxremote_api.Orchestrator.{
  Action, slept, made_dir, loaded, asked, opened_socket, closed_socket, History, Machine,
  Orchestrator, act, log_line, launch_core,
}

-- The calls of the start: the result codes of services, by their names, and those that make a socket.
pub record System : Type 0 where
  pub start : History → Bytes → ℕ
  pub socket : History → ℤ
  pub bind : History → ℤ → ℤ
  pub listen : History → ℤ → ℤ

abbrev pub M : Type 0 → Type 0
M = State Orchestrator

abbrev pub failed : ℤ → Bool
failed (pos n) = false
failed (negsuc n) = true

unfoldable pub emit : Action → M (Unit {0})
emit a o = (tt, act a o)

-- A call with an answer.
unfoldable pub ask : {A : Type 0} → (History → A) → M A
ask f o = (f o.actions, act asked o)

module _ (y : System) where
  unfoldable pub give_up : ℤ → M (Option ℤ)
  give_up fd = do emit (closed_socket fd); pure none

  unfoldable pub bind_and_listen : ℤ → M (Option ℤ)
  unfolding give_up
  bind_and_listen fd = do
    emit (opened_socket fd)
    bound ← ask (λ h. y.bind h fd)
    elim (failed bound) [
      | true ↦ give_up fd
      | false ↦ do
        listening ← ask (λ h. y.listen h fd)
        elim (failed listening) [ true ↦ give_up fd | false ↦ pure (some fd) ]
    ]

  -- `none` is its -1.
  unfoldable pub create_control_socket : M (Option ℤ)
  unfolding bind_and_listen
  create_control_socket = do
    fd ← ask y.socket
    elim (failed fd) [ true ↦ pure none | false ↦ bind_and_listen fd ]

  module _ (m : Machine) where
    unfoldable pub log : Bytes → M (Unit {0})
    log message = modify (log_line m message)

    unfoldable pub prepare : M (Unit {0})
    unfolding log
    prepare = do
      emit (slept 15000000000)
      emit (made_dir (codes "sdmc:/config"))
      emit (made_dir (codes "sdmc:/config/NXRemoteAPI"))
      emit loaded
      log (codes "[BOOT] Orchestrator started")

    -- A start that fails: a line of the log, and `return 1`.
    unfoldable pub fail : Bytes → M (Option ℤ)
    unfolding log
    fail message = do log message; pure none

    unfoldable pub control : Option ℤ → M (Option ℤ)
    unfolding fail
    control none = fail (codes "[ERR] Failed to create control socket")
    control (some fd) = pure (some fd)

    unfoldable pub open_control : M (Option ℤ)
    unfolding create_control_socket control
    open_control = do server ← create_control_socket; control server

    unfoldable pub launch_and_open : M (Option ℤ)
    unfolding open_control
    launch_and_open = do
      rc ← launch_core m
      log (snprintf 64 (codes "[BOOT] launch_core rc=" ++ hex 8 rc))
      open_control

    -- The start of `main`: `none` is its `return 1`, else it is the socket of the control port.
    unfoldable pub start : M (Option ℤ)
    unfolding prepare launch_and_open
    start = do
      prepare
      sockets ← ask (λ h. y.start h (codes "socketInitialize"))
      elim (sockets == 0) [
        | false ↦ fail (codes "[ERR] socketInitialize failed")
        | true ↦ do
          shell ← ask (λ h. y.start h (codes "pmshellInitialize"))
          elim (shell == 0) [
            | false ↦ fail (snprintf 48 (codes "[ERR] pmshellInitialize failed rc=" ++ hex 8 shell))
            | true ↦ do
              handle ← ask (λ h. y.start h (codes "pmshellGetProcessEventHandle"))
              elim (handle == 0) [
                | false ↦
                    fail (snprintf 48 (codes "[ERR] GetProcessEventHandle rc=" ++ hex 8 handle))
                | true ↦ launch_and_open
              ]
          ]
      ]
