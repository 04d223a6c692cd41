-- ===== src/Companion/Launcher/Handoff.antt =====
-- A launch that the core hands to the launcher, from its request to the Album's return.
use nxremote_api.Base.{ℕ, ◌<◌, ◌^◌, Option, none, some, [], ◌∷◌, ◌≡◌, ap, ◌∙◌, true, if◌then◌else◌}
use nxremote_api.Base.Text.{Bytes}
use nxremote_api.JsonSafeAccess.{Json}
use nxremote_api.Core.World.{Platform, Core}
use nxremote_api.Core.Album.{
  launch_request_path, launch_status_path, poll_album_launcher_completion, reports_end,
  request_body, text_eq,
}
use nxremote_api.Core.Override.Restore.{IsRestored, poll-IsRestored}
use nxremote_api.Companion.World.{wrote, History, Device, App}
use nxremote_api.Companion.Launcher.{Writer, run_launcher_mode}
use nxremote_api.Companion.Launcher.Status.{IsWriter, run_launcher_mode-Reported}
use nxremote_api.Companion.Launcher.Request.{
  IsReader, launches, request_tid-request_body, launches-run_launcher_mode,
}

-- What a file holds that the launcher has written, as it was last written.
abbrev pub written : Bytes → History → Option Bytes
written path [] = none
written path (wrote to text ∷ h) = if text_eq to path then some text else written path h
written path (e ∷ h) = written path h

module _ (d : Device) (p : Platform) (j : Json) (w : Writer j) (writer : IsWriter j w)
    (reader : IsReader j) (writes : (h : History) → d.can_write h launch_status_path ≡ true) where
  -- The core has written its request for a title and has set its flag; the launcher runs on it; then
  -- the core looks at the status file again, which is as the launcher left it. The launcher has started
  -- that title, once, and at this look the core removes the launcher and resets its flag, whether the
  -- title has started or not: for every 64-bit id but 0, if the status file can be written and the JSON
  -- library reads what was written.
  pub handoff :
      (tid : ℕ) (s : App) (c : Core)
      → 0 < tid
      → tid < 2 ^ 64
      → d.file s.events launch_request_path ≡ some (request_body p tid)
      → c.album_override_active ≡ true
      → p.file c.events launch_status_path
        ≡ written launch_status_path (run_launcher_mode d j w s).1.events
      → (launches (run_launcher_mode d j w s).1.events ≡ tid ∷ launches s.events)
        × IsRestored p j (poll_album_launcher_completion p j c).1
  unfolding text_eq
  handoff tid s c positive small requested active shared =
      let (text, older, eq, ended) =
        run_launcher_mode-Reported d j w writer writes s (request_body p tid) tid requested
          (request_tid-request_body d j w reader p tid small) in
      (
        launches-run_launcher_mode d j w reader p tid s positive small requested,
        poll-IsRestored p j c active
            (ap (reports_end j) (shared ∙ ap (written launch_status_path) eq) ∙ ended),
      )
