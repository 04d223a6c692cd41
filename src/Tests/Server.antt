-- ===== src/Tests/Server.antt =====
-- The theorems on the start of the core, its sockets, and what a request brings about.
use nxremote_api.Base.{
  true, false, some, [], ◌∷◌, ◌++◌, ◌⊎◌, ◌≡◌, refl, arith, ◌*◌, ◌+◌, if◌then◌else◌,
}
use nxremote_api.Base.Int.{pos, negsuc}
use nxremote_api.Base.Text.{Bytes, codes}
use nxremote_api.CString.Search
use nxremote_api.HttpFraming.{has_valid_api_token}
use nxremote_api.Core.Request.{requires_auth, serve}
use nxremote_api.Core.Auth.{reloaded}
use nxremote_api.Core.Passive.{ClosesQuietly}
use nxremote_api.Core.Quiet.{serve-ClosesQuietly, serve-reads}
use nxremote_api.Core.Mdns.{mdns_label}
use nxremote_api.Core.Mdns.Responder.{Lan, Thread, mdns_responder, mdns_responder-Thread}
use nxremote_api.Core.Server.{Network, Loop, no_socket, accept_rounds}
use nxremote_api.Core.Server.Views.{view}
use nxremote_api.Core.Server.Sockets.{IsServing, accept_rounds-IsServing}
use nxremote_api.Core.Boot.{Services, main}
use nxremote_api.Core.Boot.Serving.{IsRunning, main-IsRunning}
use nxremote_api.Core.World.{Platform, sd_card, built_in_user, built_in_system}
use nxremote_api.Config.{config_path, settings_text}
use nxremote_api.Core.Album.{text_eq}
use nxremote_api.Tests.Peers.{toy, toy-IsLawful, console, settings, idle}

abbrev crlf : Bytes
crlf = 13 ∷ 10 ∷ []

abbrev intruder : Bytes
intruder = codes "POST /reboot HTTP/1.1" ++ crlf ++ crlf

abbrev reader : Bytes
reader = codes "GET /logs HTTP/1.1" ++ crlf ++ crlf

-- A network on which every other client is lost, and all services start.
abbrev net : Network
net = record {
  socket = λ h. pos 3;
  bind = λ h fd. pos 0;
  listen = λ h fd. pos 0;
  accept = λ h fd. elim h [ [] ↦ negsuc 0 | e ∷ es ↦ pos 7 ];
  errno = λ h. pos 113;
}

abbrev services : Services
services = record { start = λ h name. 0; time = λ h. pos 1700000000 }

abbrev query : Bytes
query = codes "ABCDEFGHIJKL" ++ mdns_label

abbrev worn_out : Loop
worn_out = record { server_fd = no_socket; consecutive_accept_failures = 24 }

serve-ClosesQuietly_example :
    ClosesQuietly (console intruder) idle (serve (console intruder) toy true intruder idle).1.events
    ⊎ ((requires_auth intruder ≡ false)
        ⊎ (has_valid_api_token intruder idle.config.api_token ≡ true)
        ⊎ (has_valid_api_token intruder (reloaded (console intruder) intruder idle).config.api_token
            ≡ true))
serve-ClosesQuietly_example = serve-ClosesQuietly (console intruder) toy true intruder idle

serve-reads_example :
    ClosesQuietly (console reader) idle (serve (console reader) toy true reader idle).1.events
unfolding Search.contains Search.strstr Search.starts_with
serve-reads_example = serve-reads (console reader) toy true reader idle refl

-- A network on which every datagram asks for the service.
abbrev lan : Lan
lan = record {
  socket = λ h. pos 5;
  bind = λ h sd. pos 0;
  recvfrom = λ h. some query;
  ip = λ h. 0x0a01a8c0;
}

mdns_responder-Thread_example : Thread lan (mdns_responder lan 3 []).0 (mdns_responder lan 3 []).1
mdns_responder-Thread_example = mdns_responder-Thread lan (λ h. omega arith) 3

accept_rounds-IsServing_example :
    IsServing
      (accept_rounds (console reader) net toy 2 worn_out idle).0
      (view (accept_rounds (console reader) net toy 2 worn_out idle).1.events)
accept_rounds-IsServing_example =
    accept_rounds-IsServing (console reader) net toy toy-IsLawful 2 worn_out idle
      (refl, omega arith)

main-IsRunning_example :
    IsRunning
      (console reader)
      services
      net
      (main (console reader) services net toy 2 idle).0
      (view (main (console reader) services net toy 2 idle).1.events)
main-IsRunning_example = main-IsRunning (console reader) services net toy toy-IsLawful 2 idle refl

-- A console that asks for a title which only the launcher can start, and lets the Album be started.
abbrev lender : Platform
lender =
    record (console (
      codes "POST /launch?title_id=0x010000000000100D X-API-Token: swift-pluto-7"
      ++ crlf
      ++ crlf)) {
        file = λ h path.
            if text_eq path config_path then some (settings_text settings) else some (codes "NSO0");
        launch = λ h storage id. elim storage [
          | sd_card ↦ 2 + 512 * 1004
          | built_in_user ↦ 8
          | built_in_system ↦ 0
        ];
      }
