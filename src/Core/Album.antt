-- ===== src/Core/Album.antt =====
-- Launching a title: directly, or by the launcher that takes the place of the Album applet.
use nxremote_api.Base.{
  ℕ, zero, suc, ◌+◌, ◌-◌, ◌*◌, ◌/◌, ◌%◌, ◌^◌, Bool, true, false, not, ◌&&◌, ◌||◌, Option, none,
  some, [], ◌∷◌, ◌++◌, take, drop, min, length, ltb, ◌==◌, if◌then◌else◌,
}
use nxremote_api.Base.Text.{Bytes, codes}
use nxremote_api.CString.Search.{c_str}
use nxremote_api.CString.Number.{strtoull}
use nxremote_api.CString.Format.{snprintf, hex}
use nxremote_api.JsonSafeAccess.{Json, get_string}
use nxremote_api.Core.World.{
  Storage, built_in_system, ticked, opened, wrote, removed, made_dir, launched, asked, Platform, M,
  pure, ◌>>=◌, ◌>>◌, emit, ask, get, when, modify, or_abort, u64, log_i, log_e,
}

abbrev pub album_override_program_id : Bytes
album_override_program_id = codes "010000000000100D"

abbrev launcher_asset_dir : Bytes
launcher_asset_dir = codes "sdmc:/config/NXRemoteAPI/launcher"

abbrev album_dir : Bytes
album_dir = codes "sdmc:/atmosphere/contents/" ++ album_override_program_id

abbrev album_exefs_dir : Bytes
album_exefs_dir = album_dir ++ codes "/exefs"

-- The two files of the override.
abbrev pub album_main : Bytes
album_main = album_exefs_dir ++ codes "/main"

abbrev pub album_npdm : Bytes
album_npdm = album_exefs_dir ++ codes "/main.npdm"

abbrev pub launch_request_path : Bytes
launch_request_path = codes "sdmc:/config/NXRemoteAPI/launch_request.json"

abbrev pub launch_status_path : Bytes
launch_status_path = codes "sdmc:/config/NXRemoteAPI/launch_status.json"

abbrev pub album_launcher_timeout_sec : ℕ
album_launcher_timeout_sec = 20

-- A result code as a `u32`: 0 is success, and -1 is all ones.
abbrev pub succeeded : ℕ → Bool
succeeded rc = rc == 0

abbrev pub minus_one : ℕ
minus_one = 2 ^ 32 - 1

abbrev pub result_module : ℕ → ℕ
result_module rc = rc % 512

abbrev pub result_description : ℕ → ℕ
result_description rc = rc / 512 % 8192

abbrev pub is_nca_error : ℕ → Bool
is_nca_error rc = result_module rc == 2 && result_description rc == 1004

abbrev bit : Bool → Bytes
bit b = if b then codes "1" else codes "0"

-- The two texts of `state` that end a launch.
unfoldable pub text_eq : Bytes → Bytes → Bool
text_eq [] [] = true
text_eq (x ∷ xs) (y ∷ ys) = x == y && text_eq xs ys
text_eq _ _ = false

-- Whether the status file, as far as its 255 bytes go, reports the end of a launch.
unfoldable pub reports_end : Json → Option Bytes → Option Bool
reports_end j none = some false
reports_end j (some text) = elim (j.parse (c_str (take 255 text))) [
  | none ↦ some false
  | some st ↦ elim (get_string j st (codes "state") []) [
    | none ↦ none
    | some state ↦ some (text_eq state (codes "launched") || text_eq state (codes "error"))
  ]
]

-- What `fread` gives of the block of 4096 bytes that it is asked for.
unfoldable pub block_of : ℕ → ℕ
block_of given = min given 4096

module _ (p : Platform) where
  -- A round of the loop of `copy_file`, with the bytes that were read. It ends the loop when there are
  -- none, which is so at the end of the file and on an error of `fread` alike.
  unfoldable pub copy_block : Bytes → (Bytes → M (Bytes × Bool)) → Bytes → M (Bytes × Bool)
  copy_block [] next done = pure (done, true)
  copy_block (x ∷ xs) next done = do
    stored ← ask p.stores asked
    elim stored [ false ↦ pure (done, false) | true ↦ next (done ++ x ∷ xs) ]

  -- The loop, on what is left to read, with what was written. Every round that does not end it has
  -- read a byte at least, so the fuel is the length.
  unfoldable pub copy_loop : ℕ → Bytes → Bytes → M (Bytes × Bool)
  unfolding copy_block
  copy_loop zero rest done = pure (done, true)
  copy_loop (suc fuel) rest done = do
    given ← ask p.fread asked
    copy_block (take (block_of given) rest) (copy_loop fuel (drop (block_of given) rest)) done

  unfoldable pub copy_file : Bytes → Bytes → M Bool
  copy_file src dst = do
    input ← ask (λ h. p.file h src) (opened src)
    elim input [
      | none ↦ pure false
      | some text ↦ do
        ok ← ask (λ h. p.can_write h dst) (opened dst)
        elim ok [
          | false ↦ pure false
          | true ↦ do
            (done, copied) ← copy_loop (length text) text []
            kept ← ask (λ h. p.fclose h done) asked
            emit (wrote dst kept)
            pure copied
        ]
    ]

  unfoldable pub install_album_launcher_override : M Bool
  install_album_launcher_override = do
    emit (made_dir album_dir)
    emit (made_dir album_exefs_dir)
    ok1 ← copy_file (launcher_asset_dir ++ codes "/main") (album_exefs_dir ++ codes "/main")
    ok2 ←
        copy_file (launcher_asset_dir ++ codes "/main.npdm") (album_exefs_dir ++ codes "/main.npdm")
    when (not (ok1 && ok2)) (
        log_e p (
          snprintf 128 (
            codes "album_launcher: install failed (main="
            ++ bit ok1
            ++ codes " npdm="
            ++ bit ok2
            ++ codes ") - is "
            ++ launcher_asset_dir
            ++ codes " staged?")))
    pure (ok1 && ok2)

  unfoldable pub uninstall_album_launcher_override : M (Unit {0})
  uninstall_album_launcher_override = do emit (removed album_main); emit (removed album_npdm)

  -- The end of `poll_album_launcher_completion`, once the status file is read.
  unfoldable pub finish_album_launch : Bool → M (Unit {0})
  finish_album_launch done = do
    now ← ask p.tick ticked
    s ← get
    let elapsed_ticks = u64 (now + 2 ^ 64 - s.album_override_installed_tick)
    let late = not done && ltb (u64 (album_launcher_timeout_sec * p.tick_freq)) elapsed_ticks
    when late (
        log_e p (
          codes "album_launcher: timed out waiting for launch_status.json, restoring Album anyway"))
    when (done || late) (do
      uninstall_album_launcher_override
      modify (λ c. record c { album_override_active = false }))

  unfoldable pub poll_album_launcher_completion : Json → M (Unit {0})
  unfolding finish_album_launch
  poll_album_launcher_completion j = do
    s ← get
    when s.album_override_active (do
      status ← ask (λ h. p.file h launch_status_path) (opened launch_status_path)
      or_abort (reports_end j status) finish_album_launch)

  -- `pmshellLaunchProgram`; it returns its result code.
  unfoldable pub pmshell_launch_program : Storage → ℕ → M ℕ
  pmshell_launch_program storage tid = ask (λ h. p.launch h storage tid) (launched storage tid)

  abbrev pub request_body : ℕ → Bytes
  request_body tid = snprintf 64 (codes "{\"title_id\":\"" ++ hex 16 tid ++ codes "\"}")

  -- `request_launch_via_album`, behind the writing of the request file.
  unfoldable pub start_album : M ℕ
  start_album = do
    installed ← install_album_launcher_override
    elim installed [
      | false ↦ do emit (removed launch_request_path); pure minus_one
      | true ↦ do
        rc ← pmshell_launch_program built_in_system (strtoull album_override_program_id)
        log_i p (snprintf 96 (codes "album_launcher: pmshellLaunchProgram(Album) rc=" ++ hex 8 rc))
        elim (succeeded rc) [
          | false ↦ do
            uninstall_album_launcher_override
            emit (removed launch_request_path)
            pure rc
          | true ↦ do
            now ← ask p.tick ticked
            modify (λ c. record c {
              album_override_active = true;
              album_override_installed_tick = now;
            })
            pure 0
        ]
    ]

  unfoldable pub request_launch_via_album : Json → ℕ → M ℕ
  unfolding start_album
  request_launch_via_album j tid = do
    poll_album_launcher_completion j
    emit (removed launch_status_path)
    ok ← ask (λ h. p.can_write h launch_request_path) (opened launch_request_path)
    elim ok [
      | false ↦ do
        log_e p (codes "album_launcher: failed to write launch_request.json")
        pure minus_one
      | true ↦ do emit (wrote launch_request_path (request_body tid)); start_album
    ]
