-- ===== src/Tests/Sent.antt =====
-- The theorems on what a client of the core is sent.
use nxremote_api.Base.{
  All, if◌then◌else◌, ℕ, ◌≤◌, ◌<◌, ◌^◌, length-append, List, some, [], ◌∷◌, ◌++◌, length, ◌⊎◌, ◌≡◌,
  refl, arith,
}
use nxremote_api.Base.Int.{pos}
use nxremote_api.Base.Text.{Bytes, codes}
use nxremote_api.CString.Search
use nxremote_api.Core.World.{Platform, sd_card, built_in_user, built_in_system}
use nxremote_api.Core.Waits.{Takes}
use nxremote_api.Core.Net.{send}
use nxremote_api.Core.Command.{send_sized}
use nxremote_api.Core.Reports
use nxremote_api.Core.World
use nxremote_api.CString.Format
use nxremote_api.Core.Reports.{handle_titles}
use nxremote_api.Core.Reports.Items.{listing, length-listing, ids, IsDistinct, IsU64}
use nxremote_api.Core.Reports.Listed.{scanned, handle_titles-IsDistinct}
use nxremote_api.Core.Sized.{body_of, content_length, send_sized-content_length}
use nxremote_api.Core.Stream.{stream, Sends, Sends-send}
use nxremote_api.Core.Screenshot.{handle_screenshot, out_of_memory, disabled}
use nxremote_api.Core.Screenshot.Memory.{handle_screenshot-out_of_memory}
use nxremote_api.Tests.Peers.{console, idle}

abbrev crlf : Bytes
crlf = 13 ∷ 10 ∷ []

abbrev reader : Bytes
reader = codes "GET /logs HTTP/1.1" ++ crlf ++ crlf

console-Takes : Takes (console reader)
console-Takes = ((λ h. refl), λ h x rest. (length rest, refl, omega arith))

Sends-send_example :
    Sends (send (console reader) (codes "HTTP/1.1 200 OK")) (codes "HTTP/1.1 200 OK")
Sends-send_example = Sends-send (console reader) console-Takes (codes "HTTP/1.1 200 OK")

handle_screenshot-out_of_memory_example :
    stream (handle_screenshot (console reader) idle).1.events
    ≡ [] ++ (if idle.capssc_ready then out_of_memory else disabled)
handle_screenshot-out_of_memory_example =
    handle_screenshot-out_of_memory (console reader) console-Takes idle

send_sized-content_length_example :
    (response : Bytes) × (stream (send_sized (console reader) 256 (codes "[]") idle).1.events
      ≡ [] ++ response)
    × (body_of response ≡ some (codes "[]"))
    × (content_length response ≡ some 2)
send_sized-content_length_example =
    send_sized-content_length (console reader) console-Takes 256 (codes "[]") idle (omega arith)
      (omega arith)

-- A console whose storages all list the same two titles.
abbrev shelf : Platform
shelf = record (console reader) {
  control_data = λ h id. some (some (codes "Kart"));
  ncm_open = λ h storage. 0;
  ncm_count = λ h storage. (0, pos 2);
  ncm_list = λ h storage n. some (21 ∷ 22 ∷ []);
}

shelf-Takes : Takes shelf
shelf-Takes = ((λ h. refl), λ h x rest. (length rest, refl, omega arith))

abbrev kart : Bytes
kart = Format.snprintf 513 (Search.c_str (codes "Kart"))

shelf_titles : (scanned shelf idle).json_out ≡ listing ((22, kart) ∷ (21, kart) ∷ [])
unfolding Reports.scan_storages Reports.list_titles Reports.list_ids Reports.titles_of
    Reports.title_of Reports.is_seen Reports.add_title World.◌>>=◌ World.◌>>◌ World.pure World.ask
shelf_titles = refl

shelf_text : length ((scanned shelf idle).json_out ++ codes "]") < 10 ^ 19
shelf_text = rw shelf_titles (
    let items : List (ℕ × Bytes) = (22, kart) ∷ (21, kart) ∷ [] in
    omega (arith, length-append (listing items) (codes "]"), length-listing items))

handle_titles-IsDistinct_example :
    (items : List (ℕ × Bytes)) × (response : Bytes) × (stream (handle_titles shelf idle).1.events
      ≡ [] ++ response)
    × (body_of response ≡ some (listing items ++ codes "]"))
    × (content_length response ≡ some (length (listing items ++ codes "]")))
    × All IsU64 (ids items)
    × (length (scanned shelf idle).seen_ids ≤ 128)
    × ((length (scanned shelf idle).seen_ids ≡ 128) ⊎ IsDistinct (ids items))
handle_titles-IsDistinct_example = handle_titles-IsDistinct shelf shelf-Takes idle shelf_text
