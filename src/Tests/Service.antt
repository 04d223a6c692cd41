-- ===== src/Tests/Service.antt =====
-- The theorems on the service, with a client that sends one request.
use nxremote_api.Base.{◌+◌, false, some, ◌⊎◌, [], ◌∷◌, ◌++◌, length, ◌≡◌, refl, arith}
use nxremote_api.Base.Text.{Bytes, codes}
use nxremote_api.Core.Album.{copy_file}
use nxremote_api.Core.Copy.{copy_file_lem}
use nxremote_api.Core.World.{History, wrote}
use nxremote_api.Core.Request.{await_body, handle_client}
use nxremote_api.Core.Effects.Client.{ClosesOnce, handle_client-ClosesOnce}
use nxremote_api.Core.Waits.{Takes, await_body-fuel}
use nxremote_api.Tests.Peers.{toy, toy-IsLawful, console, idle}

abbrev crlf : Bytes
crlf = 13 ∷ 10 ∷ []

abbrev reboot_request : Bytes
reboot_request =
    codes "POST /reboot HTTP/1.1" ++ crlf ++ codes "X-API-Token: swift-pluto-7" ++ crlf ++ crlf

abbrev intruder : Bytes
intruder = codes "POST /reboot HTTP/1.1" ++ crlf ++ crlf

handle_client-ClosesOnce_example :
    ClosesOnce [] (handle_client (console reboot_request) toy idle).1.events
handle_client-ClosesOnce_example =
    handle_client-ClosesOnce (console reboot_request) toy toy-IsLawful idle

await_body-fuel_example :
    await_body (console intruder) 2047 5 (codes "POST /reboot") idle
    ≡ await_body (console intruder) (2047 + 100) 5 (codes "POST /reboot") idle
await_body-fuel_example =
    await_body-fuel (console intruder) 2047 100 5 (codes "POST /reboot") idle (omega arith)

console-Takes : Takes (console intruder)
console-Takes = ((λ h. refl), λ h x rest. (length rest, refl, omega arith))

abbrev launcher : Bytes
launcher = codes "sdmc:/config/NXRemoteAPI/launcher/main"

copy_file_lem_example :
    ((copy_file (console intruder) launcher (codes "sdmc:/main") idle).0 ≡ false)
    ⊎ ((text : Bytes) × (h : History) × ((console intruder).file [] launcher ≡ some text)
        × ((copy_file (console intruder) launcher (codes "sdmc:/main") idle).1.events
            ≡ wrote (codes "sdmc:/main") text ∷ h))
copy_file_lem_example =
    copy_file_lem (console intruder) (λ h. omega arith) (λ h text. refl) launcher
      (codes "sdmc:/main") idle
