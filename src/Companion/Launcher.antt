-- ===== src/Companion/Launcher.antt =====
-- The launcher: `write_launch_status` and `run_launcher_mode`.
pub mod Status
pub mod Request
pub mod Handoff
use nxremote_api.Base.{
  ℕ, Bool, true, false, Option, none, some, List, [], ◌∷◌, ◌++◌, take, ◌==◌, if◌then◌else◌,
}
use nxremote_api.Base.Int.{ℤ, pos}
use nxremote_api.Base.Text.{Bytes, codes}
use nxremote_api.CString.Search.{c_str}
use nxremote_api.CString.Number.{strtoull}
use nxremote_api.CString.Format.{hex}
use nxremote_api.JsonSafeAccess.{Json}
use nxremote_api.Core.Album.{succeeded, launch_request_path, launch_status_path}
use nxremote_api.Companion.World.{
  opened, removed, requested_launch, aborted, Device, M, pure, ◌>>=◌, ◌>>◌, emit, ask, write_file,
  value_text,
}

-- How nlohmann::json builds an object, from its members that are texts.
pub record Writer (j : Json) : Type 0 where
  pub of_members : List (Bytes × Bytes) → j.Value

module _ (d : Device) (j : Json) (w : Writer j) where
  -- The text of the status file.
  unfoldable pub status_text : Bytes → ℕ → Bytes → Bytes
  status_text state tid detail = j.dump (
      w.of_members
        ((codes "state", state) ∷ (codes "title_id", hex 16 tid) ∷ (codes "detail", detail) ∷ []))

  unfoldable pub write_launch_status : Bytes → ℕ → Bytes → M (Unit {0})
  unfolding status_text
  write_launch_status state tid detail =
      write_file d launch_status_path (status_text state tid detail)

  -- The title of a request; `none` is an abort.
  unfoldable pub request_tid : Option j.Value → Option ℕ
  request_tid none = some 0
  request_tid (some req) = elim (j.contains req (codes "title_id")) [
    | false ↦ some 0
    | true ↦ elim (value_text j req (codes "title_id") (codes "0")) [
      | none ↦ none
      | some text ↦ some (strtoull text)
    ]
  ]

  unfoldable pub start_title : ℕ → M ℤ
  unfolding write_launch_status
  start_title tid = do
    write_launch_status (codes "launching") tid []
    rc ← ask (λ h. d.request_launch h tid) (requested_launch tid)
    elim (succeeded rc) [
      | true ↦ do write_launch_status (codes "launched") tid []; pure (pos 0)
      | false ↦ do write_launch_status (codes "error") tid (codes "rc=" ++ hex 8 rc); pure (pos 0)
    ]

  unfoldable pub launch_title : Option ℕ → M ℤ
  unfolding start_title
  launch_title none = do emit aborted; pure (pos 1)
  launch_title (some tid) = elim (tid == 0) [
    | true ↦ do
      write_launch_status (codes "error") 0 (codes "invalid or missing title_id in request")
      pure (pos 1)
    | false ↦ start_title tid
  ]

  unfoldable pub run_launcher_mode : M ℤ
  unfolding launch_title request_tid
  run_launcher_mode = do
    request ← ask (λ h. d.file h launch_request_path) (opened launch_request_path)
    elim request [
      | none ↦ pure (pos 1)
      | some text ↦ do
        emit (removed launch_request_path)
        launch_title (request_tid (j.parse (c_str (take 255 text))))
    ]
