-- ===== src/Companion/Repair.antt =====
-- The repair of the installation: `make_dirs`, `check_and_fix_sysmodule` and `download_update`.
pub mod Dirs
use nxremote_api.Base.{
  ℕ, Bool, true, false, not, ◌&&◌, ◌||◌, Option, none, some, List, [], ◌∷◌, ◌++◌, take, drop,
  length, ltb, ◌==◌, if◌then◌else◌,
}
use nxremote_api.Base.Text.{Bytes, codes}
use nxremote_api.CString.Format.{snprintf}
use nxremote_api.JsonSafeAccess.{Json}
use nxremote_api.Companion.World.{
  opened, made_dir, Release, Device, M, pure, ◌>>=◌, ◌>>◌, get, when, emit, ask, colored,
  write_file,
}
use nxremote_api.Companion.Log.{add_app_log}
use nxremote_api.Companion.Transfer.{download_file}
use nxremote_api.Companion.Release.{red, get_latest_version}

abbrev pub exefs_dir : Bytes
exefs_dir = codes "sdmc:/atmosphere/contents/010000000000CAFE/exefs"

abbrev pub flags_dir : Bytes
flags_dir = codes "sdmc:/atmosphere/contents/010000000000CAFE/flags"

abbrev pub main_path : Bytes
main_path = codes "sdmc:/atmosphere/contents/010000000000CAFE/exefs/main"

abbrev pub npdm_path : Bytes
npdm_path = codes "sdmc:/atmosphere/contents/010000000000CAFE/exefs/main.npdm"

abbrev pub flag_path : Bytes
flag_path = codes "sdmc:/atmosphere/contents/010000000000CAFE/flags/boot2.flag"

abbrev pub nro_path : Bytes
nro_path = codes "sdmc:/switch/nxremoteapi.nro"

-- The parts of a path that end before a slash, on what was passed and what is left.
unfoldable pub ancestors : Bytes → Bytes → List Bytes
ancestors seen [] = []
ancestors seen (c ∷ cs) =
    let rest = ancestors (seen ++ c ∷ []) cs in if c == b'/' then seen ∷ rest else rest

-- The directories of `make_dirs`; a slash at the start of the path is not looked at.
unfoldable pub dirs_of : Bytes → List Bytes
unfolding ancestors
dirs_of path = ancestors (take 1 path) (drop 1 path) ++ path ∷ []

unfoldable pub mkdirs : List Bytes → M (Unit {0})
mkdirs [] = pure tt
mkdirs (dir ∷ dirs) = do emit (made_dir dir); mkdirs dirs

unfoldable pub make_dirs : Bytes → M (Unit {0})
unfolding mkdirs dirs_of
make_dirs path = mkdirs (dirs_of path)

abbrev is_empty : Bytes → Bool
is_empty [] = true
is_empty (c ∷ cs) = false

-- `stat(path) == 0 && st_size > n`.
abbrev larger : ℕ → Option Bytes → Bool
larger n none = false
larger n (some text) = ltb n (length text)

abbrev pub yellow : Bytes
yellow = codes "33"

module _ (d : Device) where
  -- A file of the release, if it has it.
  unfoldable pub download_asset : Bytes → Bytes → Bytes → M Bool
  download_asset url path complaint = elim (is_empty url) [
    | false ↦ download_file d url path
    | true ↦ do add_app_log d (colored red complaint); pure false
  ]

  -- The flag of the release, or else one of the application's own.
  unfoldable pub restore_flag : Bytes → M (Unit {0})
  restore_flag url = do
    flag_ok ← elim (is_empty url) [ true ↦ pure false | false ↦ download_file d url flag_path ]
    when (not flag_ok) (write_file d flag_path (codes "boot2\n"))

  unfoldable pub download_sysmodule : Release → M (Unit {0})
  unfolding make_dirs download_asset restore_flag
  download_sysmodule r = do
    make_dirs exefs_dir
    make_dirs flags_dir
    add_app_log d (codes "[INFO] Requesting files from GitHub...")
    ok1 ← download_asset r.url_main main_path (codes "[ERROR] 'main' asset missing in release")
    ok2 ← download_asset r.url_npdm npdm_path (codes "[ERROR] 'main.npdm' asset missing in release")
    elim (ok1 && ok2) [
      | true ↦ do
        restore_flag r.url_flag
        add_app_log d
            (colored (codes "32") (codes "[SUCCESS] Sysmodule restored. REBOOT REQUIRED."))
        add_app_log d (colored (codes "32") (codes "[SYSTEM] Please restart your Switch now!"))
      | false ↦ add_app_log d (colored red (codes "[ERROR] Download failed. Check internet."))
    ]

  module _ (j : Json) where
    unfoldable pub ensure_release : M (Unit {0})
    ensure_release = do
      s ← get
      elim s.latest_release.valid [
        | true ↦ pure tt
        | false ↦ do version ← get_latest_version j d []; pure tt
      ]

    unfoldable pub repair : Bool → M (Unit {0})
    unfolding ensure_release download_sysmodule
    repair manual = do
      add_app_log d (
          if manual
          then colored (codes "35") (codes "[INFO] Forced re-downloading fresh sysmodule files...")
          else colored yellow (codes "[WARN] Sysmodule missing or invalid size! Recovering..."))
      ensure_release
      s ← get
      elim s.latest_release.valid [
        | true ↦ download_sysmodule s.latest_release
        | false ↦
            add_app_log d (colored red (codes "[ERROR] FAILED to fetch release info from GitHub."))
      ]

    unfoldable pub check_and_fix_sysmodule : Bool → M (Unit {0})
    unfolding repair
    check_and_fix_sysmodule manual = do
      main_file ← ask (λ h. d.file h main_path) (opened main_path)
      npdm_file ← ask (λ h. d.file h npdm_path) (opened npdm_path)
      add_app_log d (snprintf 256 (codes "[DEBUG] Verifying: " ++ main_path))
      when manual (add_app_log d (colored (codes "36") (codes "[INFO] Manual repair starts...")))
      when (not (larger 1000 main_file) || not (larger 100 npdm_file) || manual) (repair manual)

  unfoldable pub download_release : Release → M Bool
  download_release r = do
    add_app_log d (codes "[INFO] Downloading update assets...")
    nro_ok ← download_file d r.url_nro nro_path
    nso_ok ← download_file d r.url_main main_path
    npdm_ok ← elim (is_empty r.url_npdm) [
      | true ↦ pure true
      | false ↦ download_file d r.url_npdm npdm_path
    ]
    flag_ok ← elim (is_empty r.url_flag) [
      | true ↦ pure true
      | false ↦ download_file d r.url_flag flag_path
    ]
    pure (nro_ok && nso_ok && npdm_ok)

  unfoldable pub download_update : M Bool
  unfolding download_release
  download_update = do
    s ← get
    elim (not s.latest_release.valid
        || is_empty s.latest_release.url_nro
        || is_empty s.latest_release.url_main) [
          | true ↦ do
            add_app_log d (colored red (codes "[ERROR] Assets missing for update"))
            pure false
          | false ↦ download_release s.latest_release
        ]
