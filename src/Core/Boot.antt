-- ===== src/Core/Boot.antt =====
-- `main`: the start of the services, the first loads, the heartbeat, and the server.
pub mod Serving
use nxremote_api.Base.{ℕ, ◌+◌, ◌^◌, Bool, true, false, Option, none, some, List, [], ◌∷◌, ◌++◌, ◌≡◌}
use nxremote_api.Base.Int.{ℤ}
use nxremote_api.Base.Text.{Bytes, codes}
use nxremote_api.CString.Format.{signed_decimal, hex}
use nxremote_api.JsonSafeAccess.{Json}
use nxremote_api.Logger
use nxremote_api.Core.World.{
  slept, asked, opened, appended, History, Platform, Core, M, pure, ◌>>=◌, ◌>>◌, emit, ask, get,
  when, modify, boot_log_path, append_line, log_i, log_e, trace,
}
use nxremote_api.Core.Album.{succeeded}
use nxremote_api.Core.Control.{make_dirs, load_config}
use nxremote_api.Core.Server.{Network, failed, Loop, create_listen_socket, accept_rounds}

-- The result codes of the calls that start a service, by the name that the boot log gives them, and
-- `time(NULL)`.
pub record Services : Type 0 where
  pub start : History → Bytes → ℕ
  pub time : History → ℤ

abbrev pub heartbeat_path : Bytes
heartbeat_path = codes "sdmc:/config/NXRemoteAPI/core_heartbeat.log"

-- The services that are always started, in their order.
abbrev pub basic_services : List Bytes
basic_services =
    codes "setsys"
    ∷ codes "psm"
    ∷ codes "ts"
    ∷ codes "nifm"
    ∷ codes "pmdmnt"
    ∷ codes "ns"
    ∷ codes "ncm"
    ∷ codes "apm"
    ∷ []

abbrev boot_status : Bytes → ℕ → Bytes
boot_status service rc = elim (succeeded rc) [
  | true ↦ codes "[OK] " ++ service ++ codes " initialized\n"
  | false ↦ codes "[ERROR] " ++ service ++ codes " failed: " ++ hex 8 rc ++ codes "\n"
]

abbrev token_state : Bytes → Bytes
token_state [] = codes "MISSING"
token_state (c ∷ cs) = codes "SET"

module _ (p : Platform) (v : Services) where
  unfoldable pub log_boot_status : Bytes → ℕ → M (Unit {0})
  log_boot_status service rc = append_line p boot_log_path (boot_status service rc)

  -- A service is started, and the boot log tells how that went.
  unfoldable pub start_service : Bytes → M Bool
  unfolding log_boot_status
  start_service service = do
    rc ← ask (λ h. v.start h service) asked
    log_boot_status service rc
    pure (succeeded rc)

  unfoldable pub start_all : List Bytes → M (Unit {0})
  unfolding start_service
  start_all [] = pure tt
  start_all (service ∷ services) = do started ← start_service service; start_all services

  -- A service that the settings can leave out.
  unfoldable pub start_gated : Bool → Bytes → M Bool
  unfolding start_service log_boot_status
  start_gated enabled service = elim enabled [
    | true ↦ start_service service
    | false ↦ do log_boot_status service 0; pure false
  ]

  unfoldable pub start_input : M (Unit {0})
  unfolding start_gated
  start_input = do
    s ← get
    started ← start_gated s.config.enable_input (codes "hiddbg")
    when started (modify (λ c. record c { hiddbg_ready = true }))

  unfoldable pub start_screenshot : M (Unit {0})
  unfolding start_gated
  start_screenshot = do
    s ← get
    started ← start_gated s.config.enable_screenshot (codes "capssc")
    when started (modify (λ c. record c { capssc_ready = true }))

  -- Up to the start of the socket service.
  unfoldable pub start_services : M (Unit {0})
  unfolding start_all start_input start_screenshot
  start_services = do
    emit (slept 15000000000)
    fs ← ask (λ h. v.start h (codes "fs")) asked
    make_dirs (codes "sdmc:/config" ∷ codes "sdmc:/config/NXRemoteAPI" ∷ [])
    load_config p
    start_all basic_services
    start_input
    start_screenshot

  unfoldable pub start_mdns : M (Unit {0})
  unfolding start_service
  start_mdns = do
    trace p (codes "before mdns thread spawn")
    created ← start_service (codes "mdns_thread_create")
    when created (do started ← start_service (codes "mdns_thread_start"); pure tt)
    trace p (codes "after mdns thread spawn")

  -- The three lines of the heartbeat.
  unfoldable pub heartbeat : ℤ → M (Unit {0})
  heartbeat t = do
    s ← get
    let stamp = codes "[" ++ signed_decimal t ++ codes "] "
    emit (
        appended heartbeat_path
          (stamp ++ codes "Sysmodule Main Started (v" ++ p.app_version ++ codes ")\n"))
    emit (
        appended heartbeat_path
          (stamp ++ codes "Port: " ++ signed_decimal s.config.port ++ codes "\n"))
    emit (
        appended heartbeat_path
          (stamp ++ codes "API Token: " ++ token_state s.config.api_token ++ codes "\n"))

  unfoldable pub write_heartbeat : M (Unit {0})
  unfolding heartbeat
  write_heartbeat = do
    ok ← ask (λ h. p.can_write h heartbeat_path) (opened heartbeat_path)
    trace p (codes "after fopen heartbeat")
    elim ok [ true ↦ do t ← ask v.time asked; heartbeat t | false ↦ pure tt ]

  -- From the logger to the heartbeat.
  unfoldable pub start_log : M (Unit {0})
  unfolding write_heartbeat
  start_log = do
    modify (λ c. record c { logger = Logger.init })
    trace p (codes "after logger init")
    log_i p (codes "NXRemoteAPI core started (v" ++ p.app_version ++ codes ")")
    trace p (codes "after LOG_I")
    load_config p
    trace p (codes "after config load 1")
    load_config p
    trace p (codes "after config load 2")
    write_heartbeat

  module _ (n : Network) where
    -- The start of `main`: `none` is its `return 1`, else it is the server's socket.
    unfoldable pub boot : M (Option ℤ)
    unfolding start_services start_mdns start_log
    boot = do
      start_services
      trace p (codes "before socketInitialize")
      rc ← ask (λ h. v.start h (codes "socket")) asked
      elim (succeeded rc) [
        | false ↦ do
          append_line p boot_log_path
              (codes "[ERR] socketInitialize failed: 0x" ++ hex 8 rc ++ codes "\n")
          log_e p (codes "Failed to initialize sockets")
          pure none
        | true ↦ do
          trace p (codes "after socketInitialize")
          start_mdns
          start_log
          fd ← create_listen_socket p n
          elim (failed fd) [ true ↦ pure none | false ↦ pure (some fd) ]
      ]

    -- So many rounds of the loop, if the start gave a socket.
    unfoldable pub serve_on : Json → ℕ → Option ℤ → M (Option Loop)
    serve_on j rounds none = pure none
    serve_on j rounds (some fd) = do
      l ← accept_rounds p n j rounds (record { server_fd = fd; consecutive_accept_failures = 0 })
      pure (some l)

    -- `main`, with so many rounds of its loop.
    unfoldable pub main : Json → ℕ → M (Option Loop)
    unfolding boot serve_on
    main j rounds = do started ← boot; serve_on j rounds started
