-- ===== src/Companion/Start.antt =====
-- The start of `main`, its loop and its end.
use nxremote_api.Base.{
  ℕ, zero, suc, ◌+◌, Bool, true, false, not, ◌&&◌, Option, none, some, [], ◌∷◌, ◌++◌,
}
use nxremote_api.Base.Int.{ℤ, pos, negsuc, sub_ℕ, leb_ℤ}
use nxremote_api.Base.Text.{Bytes, codes}
use nxremote_api.JsonSafeAccess.{Json}
use nxremote_api.Config
use nxremote_api.Core.Album.{launch_request_path}
use nxremote_api.Companion.World.{
  asked, slept, printed, exited, Device, M, pure, ◌>>=◌, ◌>>◌, get, modify, emit, ask,
}
use nxremote_api.Companion.Log.{add_app_log}
use nxremote_api.Companion.Launcher.{Writer, run_launcher_mode}
use nxremote_api.Companion.Release.{update_latest}
use nxremote_api.Companion.Screen.{draw_ui}
use nxremote_api.Companion.Loop.{Vars, load_config, save_events, round}

abbrev add_ℕ : ℤ → ℕ → ℤ
add_ℕ (pos a) n = pos (a + n)
add_ℕ (negsuc a) n = sub_ℕ n (suc a)

-- Whether the clock is set, and the last look for an update is more than a day old.
unfoldable pub is_due : ℤ → ℤ → Bool
is_due now last_update_check =
    not (leb_ℤ now (pos 1000000)) && not (leb_ℤ now (add_ℕ last_update_check 86400))

abbrev pub first_vars : Bytes → Vars
first_vars latest_ver = record {
  latest_ver = latest_ver;
  nso_checked = false;
  sysmodule_active = false;
  last_sysmodule_check = 0;
  loop_count = 0;
}

-- What the start of `main` leads to: its end, or its loop.
pub data Begun : Type 0 where
  returned : ℤ → Begun
  running : Vars → Begun

module _ (d : Device) (j : Json) where
  -- The look for an update, whose time is saved.
  unfoldable pub look_for_update : ℤ → M Vars
  look_for_update now = do
    draw_ui d [] true false
    version ← update_latest j d
    modify (λ s. record s { config = record s.config { last_update_check = now } })
    writable ← ask (λ h. d.can_write h Config.config_path) asked
    s ← get
    save_events (some (Config.save writable s.config))
    pure (first_vars version)

  unfoldable pub set_up : M Vars
  unfolding look_for_update
  set_up = do
    load_config d
    add_app_log d (codes "[CONFIG] Settings loaded...")
    now ← ask d.time asked
    s ← get
    elim (is_due now s.config.last_update_check) [
      | true ↦ look_for_update now
      | false ↦ pure (first_vars [])
    ]

  unfoldable pub file_exists : Bytes → M Bool
  file_exists path = ask (λ h. d.exists h path) asked

  unfoldable pub start : Writer j → M Begun
  unfolding set_up file_exists
  start w = do
    request ← file_exists launch_request_path
    elim request [
      | true ↦ do code ← run_launcher_mode d j w; pure (returned code)
      | false ↦ do
        applet ← ask d.library_applet asked
        modify (λ s. record s { is_applet_mode = applet })
        ready ← ask d.sockets asked
        elim ready [
          | false ↦ do
            emit (printed (codes "Failed to init sockets!" ++ 10 ∷ []))
            emit (slept 5000000000)
            pure (returned (pos 1))
          | true ↦ do v ← set_up; pure (running v)
        ]
    ]

  -- So many rounds of the loop, and whether it has ended.
  unfoldable pub run_loop : ℕ → Vars → M Bool
  run_loop zero v = pure false
  run_loop (suc rounds) v = do
    going ← ask d.main_loop asked
    elim going [
      | false ↦ pure true
      | true ↦ do r ← round d j v; elim r.1 [ true ↦ pure true | false ↦ run_loop rounds r.0 ]
    ]

  -- The end of `main`.
  unfoldable pub shut_down : M ℤ
  shut_down = do
    emit (exited (codes "curl"))
    emit (exited (codes "socket"))
    emit (exited (codes "nifm"))
    emit (exited (codes "console"))
    pure (pos 0)

  unfoldable pub run_on : ℕ → Begun → M (Option ℤ)
  unfolding run_loop shut_down
  run_on rounds (returned code) = pure (some code)
  run_on rounds (running v) = do
    ended ← run_loop rounds v
    elim ended [ true ↦ do code ← shut_down; pure (some code) | false ↦ pure none ]

  -- `main`, with so many rounds of its loop: what it returns, `none` if it goes on.
  unfoldable pub main : Writer j → ℕ → M (Option ℤ)
  unfolding start run_on
  main w rounds = do begun ← start w; run_on rounds begun
