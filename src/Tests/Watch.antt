-- ===== src/Tests/Watch.antt =====
-- The theorems on the orchestrator, with a core that is gone.
use nxremote_api.Base.{suc, ◌⊎◌, ◌+◌, ◌%◌, Bool, true, false, List, [], ◌∷◌, ◌≡◌, refl}
use nxremote_api.Base.Int.{pos, negsuc}
use nxremote_api.Base.Text.{codes}
use nxremote_api.Orchestrator.{Machine, Orchestrator, refused, event, handle_control_client}
use nxremote_api.Orchestrator.Restart.{launches}
use nxremote_api.Orchestrator.Main.{Control}
use nxremote_api.Orchestrator.Health.{
  trailing, restarts, probe_all, probe_all_lem, IsPermitted, deeds, handle_control_client_lem,
}
use nxremote_api.Orchestrator.Start.{System, start}
use nxremote_api.Orchestrator.Sockets.{seen, IsStarted, start-IsStarted}

abbrev machine : Machine
machine = record {
  can_log = λ h. true;
  time = λ h. pos 0;
  launch = λ h. (0, 77);
  terminate = λ h. 0;
  cleanup = λ h. 0;
  wait = λ h. event 1 76;
  exit_event = 1;
  crash_event = 2;
  socket = λ h. true;
  connect = λ h port. refused;
  writable = λ h. false;
  no_error = λ h. false;
  request = λ h. codes "POST /self_restart X-API-Token: swift-pluto-7";
  tick = λ h. 0;
  tick_freq = 19200000;
}

abbrev watcher : Orchestrator
watcher = record {
  core_pid = 76;
  consecutive_health_failures = 0;
  last_health_check = 0;
  actions = [];
}

abbrev outcomes : List Bool
outcomes = false ∷ false ∷ false ∷ true ∷ false ∷ []

probe_all_lem_example :
    ((probe_all machine outcomes watcher).consecutive_health_failures ≡ trailing outcomes % 3)
    × (launches (probe_all machine outcomes watcher).actions ≡ restarts outcomes + launches [])
probe_all_lem_example = probe_all_lem machine outcomes watcher refl

handle_control_client_lem_example :
    (IsPermitted machine (codes "swift-pluto-7") watcher
      × (launches (handle_control_client machine (codes "swift-pluto-7") watcher).actions
          ≡ suc (launches [])))
    ⊎ (¬ IsPermitted machine (codes "swift-pluto-7") watcher
        × (deeds (handle_control_client machine (codes "swift-pluto-7") watcher).actions ≡ [])
        × ((handle_control_client machine (codes "swift-pluto-7") watcher).core_pid ≡ 76))
handle_control_client_lem_example =
    handle_control_client_lem machine (codes "swift-pluto-7") watcher

-- The calls of a start on a console without room for a second socket.
abbrev system : System
system = record {
  start = λ h name. 0;
  socket = λ h. pos 4;
  bind = λ h fd. negsuc 0;
  listen = λ h fd. pos 0;
}

start-IsStarted_example :
    IsStarted 0 (start system machine watcher).0 (seen (start system machine watcher).1)
unfolding launches
start-IsStarted_example = start-IsStarted system machine watcher refl

-- A console with room for its socket, and a client in each round.
abbrev roomy : System
roomy = record system { bind = λ h fd. pos 0 }

abbrev control : Control
control = record { token = codes "swift-pluto-7"; port = pos 8275; client = λ h. true }

abbrev newborn : Orchestrator
newborn = record watcher { core_pid = 0 }
