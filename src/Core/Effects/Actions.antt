-- ===== src/Core/Effects/Actions.antt =====
-- The events of a launch, and of what `handle_client` does before it serves a request.
use nxremote_api.Base.{
  ℕ, zero, suc, Bool, false, ◌||◌, Option, none, some, List, [], ◌∷◌, ◌≡◌, refl, take, Option-cases,
  inl, inr,
}
use nxremote_api.Base.Text.{Bytes, codes}
use nxremote_api.JsonSafeAccess.{Json, IsLawful}
use nxremote_api.JsonSafeAccess.Total.{get_string_lem}
use nxremote_api.CString.Search.{c_str}
use nxremote_api.Core.World.{Storage, Platform, M}
use nxremote_api.Core.Album.{
  copy_block, copy_loop, copy_file, install_album_launcher_override,
  uninstall_album_launcher_override, finish_album_launch, poll_album_launcher_completion,
  pmshell_launch_program, start_album, request_launch_via_album, reports_end, text_eq, succeeded,
}
use nxremote_api.Core.Launch.{
  Attempt, started, failed, lr_report, lr_diagnose, try_storages, launch_program_by_id,
  storages_to_try,
}
use nxremote_api.Core.Effects.{
  is_inner, is_mild, is_basic, mild, mild_inner, inner, Only, effects, Only-pure, Only-get,
  Only-bind, Only-seq, Only-emit, Only-ask, Only-modify, Only-when, Only-bool, Only-option,
  Only-or_abort, Only-log_i, Only-log_e,
}

Only-attempt :
    {A : Type 0} (attempt : Attempt) {m : M A} {f : ℕ → Bool → M A}
    → Only is_inner m
    → ((rc : ℕ) (hit : Bool) → Only is_inner (f rc hit))
    → Only is_inner (elim attempt [ started ↦ m | failed rc hit ↦ f rc hit ])
Only-attempt started om of = om
Only-attempt (failed rc hit) om of = of rc hit

module _ (p : Platform) where
  Only-copy_block :
      (block : Bytes) {next : Bytes → M (Bytes × Bool)} (done : Bytes)
      → ((more : Bytes) → Only is_mild (next more))
      → Only is_mild (copy_block p block next done)
  unfolding copy_block
  Only-copy_block [] done more = Only-pure _
  Only-copy_block (x ∷ xs) done more =
      Only-bind (Only-ask _ _ refl) λ stored. Only-bool stored (more _) (Only-pure _)

  Only-copy_loop : (fuel : ℕ) (rest done : Bytes) → Only is_mild (copy_loop p fuel rest done)
  unfolding copy_loop
  Only-copy_loop zero rest done = Only-pure _
  Only-copy_loop (suc fuel) rest done =
      Only-bind (Only-ask _ _ refl) λ given. Only-copy_block _ done (Only-copy_loop fuel _)

  Only-copy_file : (src dst : Bytes) → Only is_mild (copy_file p src dst)
  unfolding copy_file
  Only-copy_file src dst = Only-bind (Only-ask _ _ refl) λ input.
      Only-option input (Only-pure _) λ text. Only-bind (Only-ask _ _ refl) λ ok.
        Only-bool ok
          (Only-bind (Only-copy_loop _ _ _)
            λ r. Only-bind (Only-ask _ _ refl) λ kept. Only-seq (Only-emit _ refl) (Only-pure _))
          (Only-pure _)

  pub Only-install : Only is_mild (install_album_launcher_override p)
  unfolding install_album_launcher_override
  Only-install = search (effects, mild, Only-copy_file, Only-log_e) depth 20

  Only-uninstall : Only is_inner (uninstall_album_launcher_override p)
  unfolding uninstall_album_launcher_override
  Only-uninstall = search effects

  Only-finish : (done : Bool) → Only is_inner (finish_album_launch p done)
  unfolding finish_album_launch
  Only-finish done = Only-bind (Only-ask _ _ refl) λ now. Only-bind Only-get λ s.
      Only-seq (Only-when _ (inner (Only-log_e p _)))
        (Only-when _ (Only-seq Only-uninstall (Only-modify _ (λ c. refl) λ c k. cc k)))

  Only-pmshell :
      (storage : Storage) (tid : ℕ) → Only is_inner (pmshell_launch_program p storage tid)
  unfolding pmshell_launch_program
  Only-pmshell storage tid = search effects

  Only-lr_report : (tid : ℕ) (storages : List Storage) → Only is_basic (lr_report p tid storages)
  unfolding lr_report
  Only-lr_report tid [] = search effects
  Only-lr_report tid (storage ∷ rest) = Only-bind (Only-ask _ _ refl) λ rc_open.
      Only-seq
        (Only-bool (succeeded rc_open) (Only-bind (Only-ask _ _ refl) λ r. Only-log_i p _)
          (Only-log_i p _))
        (Only-lr_report tid rest)

  pub Only-lr_diagnose : (tid : ℕ) → Only is_basic (lr_diagnose p tid)
  unfolding lr_diagnose
  Only-lr_diagnose tid =
      Only-bind (Only-ask _ _ refl)
        λ rc. Only-bool (succeeded rc) (Only-lr_report tid storages_to_try) (Only-log_e p _)

  Only-try_storages :
      (tid : ℕ) (storages : List Storage) (rc : ℕ) (hit : Bool)
      → Only is_inner (try_storages p tid storages rc hit)
  unfolding try_storages
  Only-try_storages tid [] rc hit = search effects
  Only-try_storages tid (storage ∷ rest) rc hit = Only-bind (Only-pmshell storage tid) λ rc'.
      Only-seq (inner (Only-log_i p _))
        (Only-bool (succeeded rc') (Only-pure _) (Only-try_storages tid rest _ _))

  reports_end-some :
      (j : Json) → IsLawful j → (file : Option Bytes) → (b : Bool) × (reports_end j file ≡ some b)
  unfolding reports_end
  reports_end-some j laws none = (false, refl)
  reports_end-some j laws (some text) = elim (Option-cases (j.parse (c_str (take 255 text)))) [
    | inl bad ↦ (false, rw (bad, reports_end) refl)
    | inr (st, good) ↦
        let (state, read, _) = get_string_lem j laws st (codes "state") [] in
        (
          text_eq state (codes "launched") || text_eq state (codes "error"),
          rw (good, read, reports_end) refl,
        )
  ]

  module _ (j : Json) (laws : IsLawful j) where
    pub Only-poll : Only is_inner (poll_album_launcher_completion p j)
    unfolding poll_album_launcher_completion
    Only-poll = Only-bind Only-get λ s. Only-when s.album_override_active (
        Only-bind (Only-ask _ _ refl)
          λ status. Only-or_abort (reports_end-some j laws status) Only-finish)

    Only-start_album : Only is_inner (start_album p)
    unfolding start_album
    Only-start_album = Only-bind (mild_inner Only-install) λ installed.
        Only-bool installed
          (Only-bind (Only-pmshell _ _) λ rc. Only-seq (inner (Only-log_i p _)) (
            Only-bool (succeeded rc)
              (Only-bind (Only-ask _ _ refl)
                λ now. Only-seq (Only-modify _ (λ c. refl) λ c k. cc k) (Only-pure _))
              (Only-seq Only-uninstall (Only-seq (Only-emit _ refl) (Only-pure _)))))
          (Only-seq (Only-emit _ refl) (Only-pure _))

    Only-request : (tid : ℕ) → Only is_inner (request_launch_via_album p j tid)
    unfolding request_launch_via_album
    Only-request tid = Only-seq Only-poll (
        Only-seq (Only-emit _ refl) (
          Only-bind (Only-ask _ _ refl) λ ok.
            Only-bool ok (Only-seq (Only-emit _ refl) Only-start_album)
              (Only-seq (inner (Only-log_e p _)) (Only-pure _))))

    pub Only-launch : (tid : ℕ) → Only is_inner (launch_program_by_id p j tid)
    unfolding launch_program_by_id
    Only-launch tid = Only-seq (inner (Only-lr_diagnose tid)) (
        Only-bind (Only-try_storages tid _ _ _) λ attempt.
          Only-attempt attempt (Only-pure _) λ rc hit.
            Only-bool hit (Only-seq (inner (Only-log_i p _)) (Only-request tid)) (Only-pure _))
