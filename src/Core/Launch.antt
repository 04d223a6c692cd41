-- ===== src/Core/Launch.antt =====
-- `launch_program_by_id`: the SD card, then the NAND, then the Album launcher for one error.
use nxremote_api.Base.{ℕ, Bool, true, false, ◌||◌, List, [], ◌∷◌, ◌++◌}
use nxremote_api.Base.Text.{Bytes, codes}
use nxremote_api.CString.Search.{c_str}
use nxremote_api.CString.Format.{snprintf, decimal, hex}
use nxremote_api.JsonSafeAccess.{Json}
use nxremote_api.Core.World.{
  Storage, sd_card, built_in_user, asked, Platform, M, pure, ◌>>=◌, ◌>>◌, ask, log_i, log_e,
}
use nxremote_api.Core.Album.{
  succeeded, is_nca_error, result_module, result_description, pmshell_launch_program,
  request_launch_via_album,
}

abbrev pub storages_to_try : List Storage
storages_to_try = sd_card ∷ built_in_user ∷ []

abbrev or_none : Bytes → Bytes
or_none [] = codes "(none)"
or_none (x ∷ xs) = x ∷ xs

-- How the loop over the storages ends: by a return, or with the last result code and whether any
-- storage gave the error that the fallback is for.
pub data Attempt : Type 0 where
  started : Attempt
  failed : ℕ → Bool → Attempt

module _ (p : Platform) where
  -- The first loop, which only logs what the location resolver knows.
  unfoldable pub lr_report : ℕ → List Storage → M (Unit {0})
  lr_report tid [] = pure tt
  lr_report tid (storage ∷ rest) = do
    rc_open ← ask (λ h. p.lr_open h storage) asked
    let head = codes "lr: storage=" ++ decimal (p.storage_id storage)
    elim (succeeded rc_open) [
      | true ↦ do
        (rc_resolve, path) ← ask (λ h. p.lr_resolve h storage tid) asked
        log_i p (
            snprintf 192 (
              head
              ++ codes " resolve rc="
              ++ hex 8 rc_resolve
              ++ codes " path="
              ++ or_none (c_str path)))
      | false ↦ log_i p (snprintf 192 (head ++ codes " open rc=" ++ hex 8 rc_open))
    ]
    lr_report tid rest

  unfoldable pub lr_diagnose : ℕ → M (Unit {0})
  unfolding lr_report
  lr_diagnose tid = do
    rc ← ask p.lr_start asked
    elim (succeeded rc) [
      | true ↦ lr_report tid storages_to_try
      | false ↦ log_e p (snprintf 64 (codes "lr: init failed rc=" ++ hex 8 rc))
    ]

  unfoldable pub try_storages : ℕ → List Storage → ℕ → Bool → M Attempt
  try_storages tid [] rc hit_nca_error = pure (failed rc hit_nca_error)
  try_storages tid (storage ∷ rest) rc hit_nca_error = do
    rc' ← pmshell_launch_program p storage tid
    log_i p (
        snprintf 96 (
          codes "pmshellLaunchProgram: storage="
          ++ decimal (p.storage_id storage)
          ++ codes " rc="
          ++ hex 8 rc'
          ++ codes " (module="
          ++ decimal (result_module rc')
          ++ codes " desc="
          ++ decimal (result_description rc')
          ++ codes ")"))
    elim (succeeded rc') [
      | true ↦ pure started
      | false ↦ try_storages tid rest rc' (hit_nca_error || is_nca_error rc')
    ]

  unfoldable pub launch_program_by_id : Json → ℕ → M ℕ
  unfolding lr_diagnose
  launch_program_by_id j tid = do
    lr_diagnose tid
    attempt ← try_storages tid storages_to_try 0 false
    elim attempt [
      | started ↦ pure 0
      | failed rc hit_nca_error ↦ elim hit_nca_error [
        | false ↦ pure rc
        | true ↦ do
          log_i p (
              codes
                "launch_program_by_id: NcaBaseStorageOutOfRangeC, falling back to Album-override launcher")
          request_launch_via_album p j tid
      ]
    ]
