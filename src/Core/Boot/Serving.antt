-- ===== src/Core/Boot/Serving.antt =====
-- What `main` holds open when it returns, and while it serves.
use nxremote_api.Base.{ℕ, Bool, Option, none, some, List, [], ◌∷◌, ◌≡◌, refl, arith}
use nxremote_api.Base.Int.{ℤ}
use nxremote_api.Base.Text.{Bytes, codes}
use nxremote_api.JsonSafeAccess.{Json, IsLawful}
use nxremote_api.Core.World.{Platform, Core}
use nxremote_api.Core.Album.{succeeded}
use nxremote_api.Core.Server.{Network, failed, Loop, no_socket}
use nxremote_api.Base.Hoare.{Hoare, Hoare-bind, Hoare-seq, Hoare-pure, Hoare-weaken, Hoare-cases}
use nxremote_api.Core.Server.Views.{View, view, seen, keeps}
use nxremote_api.Core.Server.Sockets.{
  serving, IsServing, IsOpen, owned-invalid, Hoare-create, Hoare-accept_rounds,
}
use nxremote_api.Core.Effects.{
  is_mild, mild, mild_inner, inner, Only, Only-pure, Only-get, Only-bind, Only-seq, Only-ask,
  Only-emit, Only-bool, Only-when, Only-modify, Only-append_line, Only-log_i, Only-log_e,
  Only-trace,
}
use nxremote_api.Core.Effects.Routes.{Only-make_dirs, Only-load_config}
use nxremote_api.Core.Boot.{
  Services, basic_services, log_boot_status, start_service, start_all, start_gated, start_input,
  start_screenshot, start_services, start_mdns, heartbeat, write_heartbeat, start_log, boot,
  serve_on, main,
}

module _ (p : Platform) (v : Services) where
  Only-start_service : (service : Bytes) → Only is_mild (start_service p v service)
  unfolding start_service log_boot_status
  Only-start_service service =
      Only-bind (Only-ask _ _ refl) λ rc. Only-seq (Only-append_line p _ _) (Only-pure _)

  Only-start_all : (services : List Bytes) → Only is_mild (start_all p v services)
  unfolding start_all
  Only-start_all [] = Only-pure _
  Only-start_all (service ∷ services) =
      Only-bind (Only-start_service service) λ started. Only-start_all services

  Only-start_gated :
      (enabled : Bool) (service : Bytes) → Only is_mild (start_gated p v enabled service)
  unfolding start_gated log_boot_status
  Only-start_gated enabled service =
      Only-bool enabled (Only-start_service service)
        (Only-seq (Only-append_line p _ _) (Only-pure _))

  Only-start_input : Only is_mild (start_input p v)
  unfolding start_input
  Only-start_input = Only-bind Only-get λ s.
      Only-bind (Only-start_gated _ (codes "hiddbg"))
        λ started. Only-when started (Only-modify _ (λ c. refl) λ c k. refl)

  Only-start_screenshot : Only is_mild (start_screenshot p v)
  unfolding start_screenshot
  Only-start_screenshot = Only-bind Only-get λ s.
      Only-bind (Only-start_gated _ (codes "capssc"))
        λ started. Only-when started (Only-modify _ (λ c. refl) λ c k. refl)

  pub Only-start_services : Only is_mild (start_services p v)
  unfolding start_services
  Only-start_services = Only-seq (Only-emit _ refl) (
      Only-bind (Only-ask _ _ refl) λ fs. Only-seq (Only-make_dirs _) (
        Only-seq (Only-load_config p) (
          Only-seq (Only-start_all basic_services)
            (Only-seq Only-start_input Only-start_screenshot))))

  pub Only-start_mdns : Only is_mild (start_mdns p v)
  unfolding start_mdns
  Only-start_mdns = Only-seq (mild (Only-trace p _)) (
      Only-bind (Only-start_service _) λ created.
        Only-seq (Only-when created (Only-bind (Only-start_service _) λ started. Only-pure _))
          (mild (Only-trace p _)))

  Only-write_heartbeat : Only is_mild (write_heartbeat p v)
  unfolding write_heartbeat heartbeat
  Only-write_heartbeat = Only-bind (Only-ask _ _ refl) λ ok. Only-seq (mild (Only-trace p _)) (
      Only-bool ok
        (Only-bind (Only-ask _ _ refl) λ t.
          Only-bind Only-get
            λ s. Only-seq (Only-emit _ refl) (Only-seq (Only-emit _ refl) (Only-emit _ refl)))
        (Only-pure _))

  pub Only-start_log : Only is_mild (start_log p v)
  unfolding start_log
  Only-start_log = Only-seq (Only-modify _ (λ c. refl) (λ c k. refl)) (
      Only-seq (mild (Only-trace p _)) (
        Only-seq (mild (Only-log_i p _)) (
          Only-seq (mild (Only-trace p _)) (
            Only-seq (Only-load_config p) (
              Only-seq (mild (Only-trace p _)) (
                Only-seq (Only-load_config p)
                  (Only-seq (mild (Only-trace p _)) Only-write_heartbeat)))))))

  module _ (n : Network) where
    -- What the start of `main` leaves open.
    abbrev IsStarted : Option ℤ → View → Type 0
    IsStarted none w = w ≡ serving no_socket
    IsStarted (some fd) w = w ≡ serving fd

    -- What `main` holds open: nothing after its `return 1`, else what the loop keeps.
    abbrev pub IsRunning : Option Loop → View → Type 0
    IsRunning none w = w ≡ serving no_socket
    IsRunning (some l) w = IsServing l w

    Hoare-boot : Hoare seen (IsOpen no_socket) (boot p v n) IsStarted
    unfolding boot
    Hoare-boot = Hoare-seq (keeps (mild_inner Only-start_services)) (
        Hoare-seq (keeps (inner (Only-trace p _))) (
          Hoare-bind (keeps (Only-ask _ _ refl)) λ rc.
            Hoare-cases (succeeded rc)
              (λ _. Hoare-seq (keeps (inner (Only-trace p _))) (
                Hoare-seq (keeps (mild_inner Only-start_mdns)) (
                  Hoare-seq (keeps (mild_inner Only-start_log)) (
                    Hoare-bind (Hoare-create p n) λ fd.
                      Hoare-cases (failed fd)
                        (λ invalid. Hoare-pure _ λ w h. rw h (owned-invalid fd invalid))
                        (λ _. Hoare-pure _ λ w h. h)))))
              (λ _.
                Hoare-seq (keeps (mild_inner (Only-append_line p _ _)))
                  (Hoare-seq (keeps (inner (Only-log_e p _))) (Hoare-pure _ λ w h. h)))))

    module _ (j : Json) (laws : IsLawful j) (rounds : ℕ) where
      Hoare-serve_on :
          (started : Option ℤ)
          → Hoare seen (IsStarted started) (serve_on p v n j rounds started) IsRunning
      unfolding serve_on
      Hoare-serve_on none = Hoare-pure _ λ w h. h
      Hoare-serve_on (some fd) =
          Hoare-bind
            (Hoare-weaken (λ w h. (h, omega arith)) (Hoare-accept_rounds p n j laws rounds _))
            λ l. Hoare-pure _ λ w h. h

      Hoare-main : Hoare seen (IsOpen no_socket) (main p v n j rounds) IsRunning
      unfolding main
      Hoare-main = Hoare-bind Hoare-boot Hoare-serve_on

    -- From the start of the process: whichever services fail to start and whatever the network and the
    -- clients do, `main` has returned without an open socket, or after any number of rounds of its loop
    -- it runs with no client's connection open, the socket of its loop the only one of the server, and
    -- at most 24 failures counted, if the JSON library reads a value that it reports as a string or a
    -- number as that.
    pub main-IsRunning :
        (j : Json) (laws : IsLawful j) (rounds : ℕ) (s : Core)
        → s.events ≡ []
        → IsRunning (main p v n j rounds s).0 (view (main p v n j rounds s).1.events)
    main-IsRunning j laws rounds s h = (Hoare-main j laws rounds).run s (rw h refl)
