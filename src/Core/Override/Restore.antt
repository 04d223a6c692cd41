-- ===== src/Core/Override/Restore.antt =====
-- The end of a launch by the Album, as `poll_album_launcher_completion` sees it.
use nxremote_api.Base.{true, false, some, ◌≡◌, refl}
use nxremote_api.JsonSafeAccess.{Json}
use nxremote_api.Core.World.{Platform, Core, ◌>>=◌, ◌>>◌, emit, ask, get, when, modify, or_abort}
use nxremote_api.Core.Album.{
  uninstall_album_launcher_override, finish_album_launch, poll_album_launcher_completion,
  reports_end, launch_status_path, text_eq,
}
use nxremote_api.Core.Override.{is_lent}

module _ (p : Platform) (j : Json) where
  -- Both files of the launcher are removed from the place of the Album, and the core knows.
  abbrev pub IsRestored : Core → Type 0
  IsRestored s = (s.album_override_active ≡ false) × (is_lent p s.events ≡ false)

  finish-IsRestored : (s : Core) → IsRestored (finish_album_launch p true s).1
  unfolding finish_album_launch uninstall_album_launcher_override emit ask get when modify text_eq
      ◌>>=◌ ◌>>◌
  finish-IsRestored s = (refl, refl)

  pub poll-IsRestored :
      (s : Core)
      → s.album_override_active ≡ true
      → reports_end j (p.file s.events launch_status_path) ≡ some true
      → IsRestored (poll_album_launcher_completion p j s).1
  unfolding poll_album_launcher_completion ask get when or_abort ◌>>=◌ ◌>>◌
  poll-IsRestored s active ended = rw (active, ended) (finish-IsRestored _)
