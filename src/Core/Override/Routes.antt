-- ===== src/Core/Override/Routes.antt =====
-- The routes of a request keep track of the Album override.
use nxremote_api.Base.{ℕ, Bool, List, [], ◌∷◌, ◌==◌}
use nxremote_api.Base.Int.{ℤ}
use nxremote_api.Base.Text.{Bytes, codes}
use nxremote_api.CString.Search.{strstr}
use nxremote_api.JsonSafeAccess.{Json}
use nxremote_api.HttpFraming.{blank_line}
use nxremote_api.Core.World.{Platform}
use nxremote_api.Core.Net.{close}
use nxremote_api.Core.Command.{answer_command, launch_app, run_action, command_body, handle_command}
use nxremote_api.Core.Control.{
  spsm, handle_reboot, handle_shutdown, handle_sleep, handle_launch, handle_update_app,
}
use nxremote_api.Core.Info.{handle_info}
use nxremote_api.Core.Button.{
  press_step, press_all, press_one, press_named, handle_button, handle_button_disabled,
  button_sequence,
}
use nxremote_api.Core.Request.{post_route, route, dispatch}
use nxremote_api.Core.Effects.{Only-trace, Only-log_i, Only-log_e, Only-send_timeout, Only-send}
use nxremote_api.Core.Effects.Routes.{
  Only-titles, Only-screenshot, Only-launch_status, Only-logs, Only-send_sized, Only-reload_config,
}
use nxremote_api.Core.Effects.Client.{Only-read_all}
use nxremote_api.Core.Override.{
  Tracks, calm, calm_mild, tracks, Tracks-pure, Tracks-bind, Tracks-seq, Tracks-bool, Tracks-if,
  Tracks-option, Tracks-or_abort,
}
use nxremote_api.Core.Override.Launch.{Tracks-launch}

module _ (p : Platform) where
  ruleset quiet_calls = (
    calm, Only-trace, Only-log_i, Only-log_e, Only-send_timeout, Only-send, Only-send_sized,
    Only-read_all,
  )

  Tracks-reboot : Tracks p (handle_reboot p)
  unfolding handle_reboot spsm
  Tracks-reboot = search (tracks, quiet_calls)

  Tracks-shutdown : Tracks p (handle_shutdown p)
  unfolding handle_shutdown spsm
  Tracks-shutdown = search (tracks, quiet_calls)

  Tracks-update_app : Tracks p (handle_update_app p)
  unfolding handle_update_app spsm
  Tracks-update_app = search (tracks, quiet_calls)

  Tracks-sleep : Tracks p (handle_sleep p)
  unfolding handle_sleep
  Tracks-sleep = search (tracks, quiet_calls) depth 12

  pub Tracks-close : Tracks p (close p)
  unfolding close
  Tracks-close = search tracks

  Tracks-info : Tracks p (handle_info p)
  unfolding handle_info
  Tracks-info = search (tracks, quiet_calls, Tracks-close) depth 40

  Tracks-press_step : (btn_bit : ℕ) (duration : ℤ) → Tracks p (press_step p btn_bit duration)
  unfolding press_step
  Tracks-press_step btn_bit duration =
      Tracks-bool p (btn_bit == 0) (Tracks-pure p tt) (search tracks)

  Tracks-press_one : (btn_bit : ℕ) → Tracks p (press_one p btn_bit)
  unfolding press_one
  Tracks-press_one btn_bit =
      Tracks-bool p (btn_bit == 0) (calm p (Only-send p _)) (search (tracks, quiet_calls))

  Tracks-press_named : (buffer : Bytes) → Tracks p (press_named p buffer)
  unfolding press_named
  Tracks-press_named buffer =
      Tracks-option p (strstr buffer (codes "name=")) (calm p (Only-send p _))
        λ name_ptr. Tracks-press_one _

  Tracks-button_disabled : Tracks p (handle_button_disabled p)
  unfolding handle_button_disabled
  Tracks-button_disabled = calm p (Only-send p _)

  module _ (j : Json) where
    Tracks-press_all : (steps : List j.Value) → Tracks p (press_all p j steps)
    unfolding press_all
    Tracks-press_all [] = Tracks-pure p tt
    Tracks-press_all (step ∷ steps) =
        Tracks-seq p (Tracks-or_abort p _ λ n. Tracks-or_abort p _ λ d. Tracks-press_step _ d)
          (Tracks-press_all steps)

    Tracks-button : (buffer : Bytes) → Tracks p (handle_button p j buffer)
    unfolding handle_button
    Tracks-button buffer =
        Tracks-option p (button_sequence j buffer) (Tracks-press_named buffer)
          λ steps. Tracks-seq p (Tracks-press_all steps) (calm p (Only-send p _))

    Tracks-handle_launch : (buffer : Bytes) → Tracks p (handle_launch p j buffer)
    unfolding handle_launch
    Tracks-handle_launch buffer =
        Tracks-option p (strstr buffer (codes "title_id=0x")) (calm p (Only-send p _))
          λ id_ptr. search (tracks, quiet_calls, Tracks-launch p j) depth 12

    Tracks-launch_app : (request : j.Value) → Tracks p (launch_app p j request)
    unfolding launch_app answer_command
    Tracks-launch_app request =
        Tracks-or_abort p _
          λ tid_str. Tracks-bind p (Tracks-launch p j _) λ rc. calm p (Only-send_sized p _ _)

    Tracks-answer : (rc : ℕ) → Tracks p (answer_command p rc)
    unfolding answer_command
    Tracks-answer rc = calm p (Only-send_sized p _ _)

    Tracks-run_action :
        (request : j.Value) (action : Bytes) → Tracks p (run_action p j request action)
    unfolding run_action spsm
    Tracks-run_action request action =
        search (tracks, quiet_calls, Tracks-answer, Tracks-launch_app) depth 20

    Tracks-command : (buffer : Bytes) → Tracks p (handle_command p j buffer)
    unfolding handle_command command_body
    Tracks-command buffer = Tracks-option p (strstr buffer blank_line) (Tracks-pure p tt) λ body.
        Tracks-option p (j.parse _) (calm p (Only-send p _)) λ request.
          Tracks-bool p (j.contains request (codes "action"))
            (Tracks-or_abort p _ (Tracks-run_action request)) (calm p (Only-send p _))

    Tracks-post_route : (ready : Bool) (buffer : Bytes) → Tracks p (post_route p j ready buffer)
    unfolding post_route
    Tracks-post_route ready buffer = Tracks-if p _ Tracks-reboot (
        Tracks-if p _ Tracks-shutdown (
          Tracks-if p _ Tracks-sleep (
            Tracks-if p _ (calm_mild p (Only-reload_config p)) (
              Tracks-if p _ (Tracks-handle_launch buffer) (
                Tracks-if p _ Tracks-update_app (
                  Tracks-if p _ Tracks-button_disabled
                    (Tracks-if p _ (Tracks-button buffer) (calm p (Only-send p _)))))))))

    Tracks-route : (ready : Bool) (buffer : Bytes) → Tracks p (route p j ready buffer)
    unfolding route
    Tracks-route ready buffer =
        search
          (
            tracks,
            quiet_calls,
            Only-titles p,
            Only-screenshot p,
            Only-launch_status p j,
            Only-logs p,
            Tracks-command,
            Tracks-post_route,
          )
          depth 20

    pub Tracks-dispatch : (ready : Bool) (buffer : Bytes) → Tracks p (dispatch p j ready buffer)
    unfolding dispatch
    Tracks-dispatch ready buffer = search (tracks, Tracks-info, Tracks-route, Tracks-close)
