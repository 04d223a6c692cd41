-- ===== src/Orchestrator/Restart.antt =====
-- What a restart does, and who can ask for one.
use nxremote_api.Base.{
  ℕ, suc, [], ◌∷◌, ◌++◌, Bool-cases, inl, inr, ◌≡◌, refl, ap, ◌∙◌, arith, ◌==◌, if◌then◌else◌,
}
use nxremote_api.Base.Text.{Bytes, codes}
use nxremote_api.CString.Format.{snprintf, hex}
use nxremote_api.Orchestrator.Views.{view-log_line, view-await_exit, view-log_unless}
use nxremote_api.Orchestrator.{
  launched, terminated, cleaned, History, Machine, Orchestrator, act, log_line, launch_core,
  await_exit, log_unless, terminate_tracked, terminate_core, restart_core,
}

-- How often the core was started.
unfoldable pub launches : History → ℕ
launches [] = 0
launches (launched ∷ h) = suc (launches h)
launches (_ ∷ h) = launches h

module _ (m : Machine) where
  abbrev started : Orchestrator → ℕ
  started o = launches o.actions

  pub launches-log_line :
      (msg : Bytes) (o : Orchestrator) → launches (log_line m msg o).actions ≡ launches o.actions
  unfolding launches
  launches-log_line = view-log_line m started (λ t o. refl) (λ o. refl)

  pid-log_line : (msg : Bytes) (o : Orchestrator) → (log_line m msg o).core_pid ≡ o.core_pid
  pid-log_line = view-log_line m (λ o. o.core_pid) (λ t o. refl) (λ o. refl)

  launches-terminate_tracked :
      (target : ℕ) (o : Orchestrator)
      → launches (terminate_tracked m target o).actions ≡ launches o.actions
  unfolding terminate_tracked launches
  launches-terminate_tracked target o =
      let msg = snprintf 80 (
        codes "[TERM] TerminateProgram rc="
        ++ hex 8 (m.terminate o.actions)
        ++ codes " pid="
        ++ hex 16 target) in
      let o1 = log_line m msg (act terminated o) in
      let r = await_exit m 15 target o1 in
      launches-log_line _ (act (cleaned target) (log_unless m r.0 r.1))
      ∙ view-log_unless m started (λ t x. refl) (λ x. refl) r.0 r.1
      ∙ view-await_exit m started (λ t x. refl) (λ x. refl) 15 target o1
      ∙ launches-log_line msg (act terminated o)

  launches-terminate_core :
      (o : Orchestrator) → launches (terminate_core m o).actions ≡ launches o.actions
  unfolding terminate_core
  launches-terminate_core o = elim (Bool-cases (o.core_pid == 0)) [
    | inl e ↦ rw e (launches-log_line _ o)
    | inr e ↦ rw e (launches-terminate_tracked o.core_pid o)
  ]

  launches-launch_core :
      (o : Orchestrator) → launches (launch_core m o).1.actions ≡ suc (launches o.actions)
  unfolding launch_core launches
  launches-launch_core o = elim (Bool-cases ((m.launch o.actions).0 == 0)) [
    | inl e ↦ rw e (launches-log_line _ _)
    | inr e ↦ rw e refl
  ]

  -- A restart starts the core once.
  pub launches-restart_core :
      (reason : Bytes) (o : Orchestrator)
      → launches (restart_core m reason o).actions ≡ suc (launches o.actions)
  unfolding restart_core
  launches-restart_core reason o =
      launches-log_line _ _
      ∙ launches-launch_core _
      ∙ ap suc (launches-terminate_core _ ∙ launches-log_line _ o)

  pid-terminate_core : (o : Orchestrator) → (terminate_core m o).core_pid ≡ 0
  unfolding terminate_core terminate_tracked
  pid-terminate_core o = elim (Bool-cases (o.core_pid == 0)) [
    | inl e ↦ rw e (pid-log_line _ o ∙ ground arith)
    | inr e ↦ rw e refl
  ]

  pid-launch_core :
      (o : Orchestrator)
      → (launch_core m o).1.core_pid
        ≡ (if (m.launch o.actions).0 == 0 then (m.launch o.actions).1 else o.core_pid)
  unfolding launch_core
  pid-launch_core o = elim (Bool-cases ((m.launch o.actions).0 == 0)) [
    | inl e ↦ rw e (pid-log_line _ _)
    | inr e ↦ rw e refl
  ]

  -- After a restart the process that is tracked is the one that was started then, and none if that
  -- failed: the id of the old process is never kept.
  pub pid-restart_core :
      (reason : Bytes) (o : Orchestrator)
      → (h : History) × ((restart_core m reason o).core_pid
          ≡ (if (m.launch h).0 == 0 then (m.launch h).1 else 0))
  unfolding restart_core
  pid-restart_core reason o =
      let stopped = terminate_core m (log_line m (snprintf 96 (codes "[RESTART] " ++ reason)) o) in
      let gone : stopped.core_pid ≡ 0 = pid-terminate_core _ in
      (
        stopped.actions,
        pid-log_line _ (launch_core m stopped).1
            ∙ pid-launch_core stopped
            ∙ ap
                (λ pid.
                  if (m.launch stopped.actions).0 == 0 then (m.launch stopped.actions).1 else pid)
                gone,
      )
