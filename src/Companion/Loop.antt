-- ===== src/Companion/Loop.antt =====
-- A round of the loop of `main`.
pub mod Window
pub mod Offer
use nxremote_api.Base.{
  ℕ, zero, suc, ◌+◌, ◌-◌, ◌*◌, ◌/◌, ◌%◌, ◌^◌, Bool, true, false, not, ◌&&◌, ◌||◌, Option, none,
  some, List, [], ◌∷◌, ◌++◌, take, drop, length, ltb, ◌==◌, if◌then◌else◌,
}
use nxremote_api.Base.Int.{ℤ, pos}
use nxremote_api.Base.Text.{Bytes, codes}
use nxremote_api.CString.Format.{snprintf, signed_decimal}
use nxremote_api.JsonSafeAccess.{Json}
use nxremote_api.Config
use nxremote_api.Config.{Seeds, Saved}
use nxremote_api.Core.Album.{text_eq}
use nxremote_api.Companion.World.{
  asked, slept, opened, wrote, made_dir, Device, M, pure, ◌>>=◌, ◌>>◌, get, modify, when, emit, ask,
  colored,
}
use nxremote_api.Companion.Log.{add_app_log, fetch_offline_boot_logs}
use nxremote_api.Companion.Release.{red, update_latest}
use nxremote_api.Companion.Repair.{yellow, mkdirs, check_and_fix_sysmodule, download_update}
use nxremote_api.Companion.Screen.{draw_ui}
use nxremote_api.Companion.Bridge.{is_sysmodule_running, fetch_sysmodule_logs}

-- The variables of the loop.
pub record Vars : Type 0 where
  pub latest_ver : Bytes
  pub nso_checked : Bool
  pub sysmodule_active : Bool
  pub last_sysmodule_check : ℕ
  pub loop_count : ℕ

-- A version that `main` offers to install.
unfoldable pub is_offered : Bytes → Bytes → Bool
is_offered latest_ver app_version =
    not (text_eq latest_ver [])
    && not (text_eq latest_ver app_version)
    && not (text_eq latest_ver (codes "none"))
    && not (text_eq latest_ver (codes "error"))

unfoldable pub write_settings : Option Bytes → M (Unit {0})
write_settings none = pure tt
write_settings (some text) = emit (wrote Config.config_path text)

unfoldable pub save_events : Option Saved → M (Unit {0})
unfolding write_settings
save_events none = pure tt
save_events (some saved) = do mkdirs saved.made; write_settings saved.written

module _ (d : Device) where
  unfoldable pub seeds : M Seeds
  seeds = do
    tick ← ask d.tick asked
    adjective ← ask d.random asked
    noun ← ask d.random asked
    pure (record { tick = tick; adjective = adjective; noun = noun })

  unfoldable pub load_config : M (Unit {0})
  unfolding seeds save_events
  load_config = do
    file ← ask (λ h. d.file h Config.config_path) (opened Config.config_path)
    from ← seeds
    writable ← ask (λ h. d.can_write h Config.config_path) asked
    s ← get
    let out = Config.load file writable from s.config
    modify (λ s'. record s' { config = out.config })
    save_events out.saved

  -- `generateDefaultConfig(); save();`
  unfoldable pub reset_config : M (Unit {0})
  unfolding seeds save_events
  reset_config = do
    from ← seeds
    modify (λ s. record s { config = Config.generate_default_config from s.config })
    writable ← ask (λ h. d.can_write h Config.config_path) asked
    s ← get
    save_events (some (Config.save writable s.config))

  -- The button (-).
  unfoldable pub toggle_dev_mode : M (Unit {0})
  toggle_dev_mode = do
    modify (λ s. record s { dev_mode = not s.dev_mode })
    s ← get
    add_app_log d (
        colored (codes "35")
          (if s.dev_mode then codes "[SYSTEM] Dev Mode ON" else codes "[SYSTEM] Dev Mode OFF"))

  unfoldable pub sleeps : ℕ → M (Unit {0})
  sleeps zero = pure tt
  sleeps (suc n) = do emit (slept 16666666); sleeps n

  module _ (j : Json) where
    unfoldable pub first_check : Vars → M Vars
    first_check v = elim v.nso_checked [
      | true ↦ pure v
      | false ↦ do
        ip ← ask d.ip asked
        elim (ip == 0) [
          | true ↦ pure v
          | false ↦ do check_and_fix_sysmodule d j false; pure (record v { nso_checked = true })
        ]
    ]

    -- What is said of a core that does not answer.
    unfoldable pub report_bridge : ℕ → M (Unit {0})
    report_bridge loop_count = do
      s ← get
      add_app_log d (
          snprintf 128 (
            colored red (
              codes "[ERROR] Bridge: "
              ++ s.sys_status_msg
              ++ codes " (Port "
              ++ signed_decimal s.config.port
              ++ codes ")")))
      when (loop_count % 10 == 0) (do
        add_app_log d
            (colored yellow (codes "[HINT] No bridge? Check /config/NXRemoteAPI/core_boot.log"))
        check_and_fix_sysmodule d j false)

    unfoldable pub look : Vars → ℕ → M Vars
    unfolding report_bridge
    look v now = do
      fetch_offline_boot_logs d
      active ← is_sysmodule_running d
      elim active [ true ↦ fetch_sysmodule_logs d j | false ↦ report_bridge v.loop_count ]
      pure (record v { sysmodule_active = active; last_sysmodule_check = now })

    -- The look at the core, every third second.
    unfoldable pub check_core : Vars → M Vars
    unfolding look
    check_core v = do
      tick ← ask d.tick asked
      let now = tick / 19200000
      elim (ltb 2 ((now + 2 ^ 64 - v.last_sysmodule_check) % 2 ^ 64)) [
        | true ↦ look v now
        | false ↦ pure v
      ]

    -- The button (ZR).
    unfoldable pub reset : M (Unit {0})
    unfolding reset_config load_config
    reset = do
      add_app_log d (colored yellow (codes "[SYSTEM] Resetting and verifying integrity..."))
      reset_config
      load_config
      check_and_fix_sysmodule d j true

    -- The button (X).
    unfoldable pub check_update : Bool → Vars → M Vars
    check_update pressed v = elim pressed [
      | false ↦ pure v
      | true ↦ do
        draw_ui d v.latest_ver true v.sysmodule_active
        version ← update_latest j d
        pure (record v { latest_ver = version })
    ]

    -- The button (Y): whether the loop is left.
    unfoldable pub install_update : Bool → M Bool
    unfolding sleeps
    install_update wanted = elim wanted [
      | false ↦ pure false
      | true ↦ do
        installed ← download_update d
        elim installed [
          | false ↦ pure false
          | true ↦ do
            add_app_log d (colored (codes "32") (codes "Update Done! Exiting..."))
            sleeps 60
            pure true
        ]
    ]

    -- The buttons that went down in a round; the round ends with whether the loop is left.
    unfoldable pub act : Bool → Bool → Bool → Bool → Vars → M (Vars × Bool)
    unfolding toggle_dev_mode reset check_update install_update
    act minus zr x y v = do
      when minus toggle_dev_mode
      when zr reset
      v' ← check_update x v
      left ← install_update (y && is_offered v'.latest_ver d.app_version)
      when (not left) (emit (slept 16666666))
      pure (v', left)

    unfoldable pub round : Vars → M (Vars × Bool)
    unfolding first_check check_core act
    round v = do
      h ← ask (λ h. h) asked
      checked ← first_check v
      seen ← check_core checked
      draw_ui d seen.latest_ver false seen.sysmodule_active
      let drawn = record seen { loop_count = seen.loop_count + 1 }
      elim (d.plus h) [
        | true ↦ pure (drawn, true)
        | false ↦ act (d.minus h) (d.zr h) (d.x h) (d.y h) drawn
      ]
