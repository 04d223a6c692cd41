-- ===== src/Orchestrator/Single.antt =====
-- The cores that the orchestrator has started and not ended, and the one that it tracks.
pub mod Whole
use nxremote_api.Base.{
  ℕ, zero, suc, ◌<◌, ◌==◌, ◌&&◌, ◌||◌, Bool, true, false, List, [], ◌∷◌, if◌then◌else◌, Bool-cases,
  inl, inr, ◌⊎◌, ◌≡◌, refl, sym, subst, ap, ◌∙◌, arith, ◌++◌, leb, ◌+◌, ◌-◌, ◌*◌, ◌%◌, ◌^◌,
}
use nxremote_api.Base.Int.{ℤ}
use nxremote_api.Base.Text.{Bytes, codes}
use nxremote_api.CString.Format.{snprintf, hex}
use nxremote_api.Orchestrator.{
  launched, cleaned, terminated, ticked, probed, core_is_alive, health_check_interval_sec, History,
  Machine, Orchestrator, act, log_line, launch_core, terminate_tracked, terminate_core,
  restart_core, handle_control_client, note_probe, check_health, round, await_exit, log_unless,
}
use nxremote_api.Orchestrator.Views.{view-log_line, view-await_exit, view-log_unless}

abbrev remove_pid : ℕ → List ℕ → List ℕ
remove_pid pid [] = []
remove_pid pid (x ∷ xs) = if x == pid then remove_pid pid xs else x ∷ remove_pid pid xs

-- Whether a `TerminateProgram` of the core has succeeded since the last start.
abbrev pub is_told : Machine → History → Bool
is_told m [] = false
is_told m (launched ∷ h) = false
is_told m (terminated ∷ h) = m.terminate h == 0 || is_told m h
is_told m (a ∷ h) = is_told m h

-- The processes that were started and not ended since, the newest first. A process ends when it was
-- told to and a `CleanupProcess` of its id has then succeeded.
abbrev pub live : Machine → History → List ℕ
live m [] = []
live m (launched ∷ h) = if (m.launch h).0 == 0 then (m.launch h).1 ∷ live m h else live m h
live m (cleaned pid ∷ h) =
    if is_told m h && m.cleanup h == 0 then remove_pid pid (live m h) else live m h
live m (a ∷ h) = live m h

-- What is tracked, and what lives.
abbrev pub cores : Machine → Orchestrator → ℕ × List ℕ
cores m o = (o.core_pid, live m o.actions)

-- None, or the one that is tracked.
abbrev pub IsSingle : ℕ × List ℕ → Type 0
IsSingle v = (v ≡ (0, [])) ⊎ ((0 < v.0) × (v.1 ≡ v.0 ∷ []))

module _ (m : Machine) where
  cores-log_line : (msg : Bytes) (o : Orchestrator) → cores m (log_line m msg o) ≡ cores m o
  cores-log_line = view-log_line m (cores m) (λ t o. refl) (λ o. refl)

  live-log_line :
      (msg : Bytes) (o : Orchestrator) → live m (log_line m msg o).actions ≡ live m o.actions
  live-log_line = view-log_line m (λ o. live m o.actions) (λ t o. refl) (λ o. refl)

  abbrev ends : Orchestrator → List ℕ × Bool
  ends o = (live m o.actions, is_told m o.actions)

  ends-log_line : (msg : Bytes) (o : Orchestrator) → ends (log_line m msg o) ≡ ends o
  ends-log_line = view-log_line m ends (λ t o. refl) (λ o. refl)

  live-cleaned :
      (target : ℕ) (o : Orchestrator) {l : List ℕ}
      → m.cleanup o.actions ≡ 0
      → ends o ≡ (l, true)
      → live m (act (cleaned target) o).actions ≡ remove_pid target l
  live-cleaned target o gone told =
      rw (ap (λ v. v.1) told, gone) (ap (λ v. remove_pid target v.0) told)

  live-terminate_tracked :
      (terminates : (h : History) → m.terminate h ≡ 0)
      → (cleans : (h : History) → m.cleanup h ≡ 0) → (target : ℕ) (o : Orchestrator)
      → live m (terminate_tracked m target o).actions ≡ remove_pid target (live m o.actions)
  unfolding terminate_tracked
  live-terminate_tracked terminates cleans target o =
      let msg = snprintf 80 (
        codes "[TERM] TerminateProgram rc="
        ++ hex 8 (m.terminate o.actions)
        ++ codes " pid="
        ++ hex 16 target) in
      let o1 = log_line m msg (act terminated o) in
      let r = await_exit m 15 target o1 in
      let told : ends (act terminated o) ≡ (live m o.actions, true) =
        rw (terminates o.actions) refl in
      live-log_line _ (act (cleaned target) (log_unless m r.0 r.1))
      ∙ live-cleaned target (log_unless m r.0 r.1) (cleans _) (
          view-log_unless m ends (λ t x. refl) (λ x. refl) r.0 r.1
          ∙ view-await_exit m ends (λ t x. refl) (λ x. refl) 15 target o1
          ∙ ends-log_line msg (act terminated o)
          ∙ told)

  remove_pid_self : (pid : ℕ) → remove_pid pid (pid ∷ []) ≡ []
  remove_pid_self pid = ground arith

  -- The end of the tracked core leaves none.
  cores-terminate_core :
      (terminates : (h : History) → m.terminate h ≡ 0)
      → (cleans : (h : History) → m.cleanup h ≡ 0) → (o : Orchestrator) → IsSingle (cores m o)
      → cores m (terminate_core m o) ≡ (0, [])
  unfolding terminate_core
  cores-terminate_core terminates cleans o single = elim (Bool-cases (o.core_pid == 0)) [
    | inl untracked ↦ rw untracked (
        cores-log_line _ o
        ∙ (elim single [ inl empty ↦ empty | inr one ↦ absurd (ground (arith, one.0)) ]))
    | inr tracked ↦ rw tracked (
        ap (λ l. (0, l))
          (live-terminate_tracked terminates cleans o.core_pid o ∙ (elim single [
            | inl empty ↦ ap (λ v. remove_pid o.core_pid v.1) empty
            | inr one ↦ ap (remove_pid o.core_pid) one.1 ∙ remove_pid_self o.core_pid
          ])))
  ]

  IsSingle-if :
      (b : Bool) {v w : ℕ × List ℕ}
      → (b ≡ true → IsSingle v)
      → (b ≡ false → IsSingle w)
      → IsSingle (if b then v else w)
  IsSingle-if true hv hw = hv refl
  IsSingle-if false hv hw = hw refl

  -- A state in which it is so.
  pub record IsSound (o : Orchestrator) : Type 0 where
    pub single : IsSingle (cores m o)

  IsSound-eq : {o o' : Orchestrator} → cores m o' ≡ cores m o → IsSound o → IsSound o'
  IsSound-eq e h = record { single = subst IsSingle (sym e) h.single }

  IsSound-log_line : (msg : Bytes) {o : Orchestrator} → IsSound o → IsSound (log_line m msg o)
  IsSound-log_line msg h = IsSound-eq (cores-log_line msg _) h

  IsSound-if :
      (b : Bool) {o o' : Orchestrator} → IsSound o → IsSound o' → IsSound (if b then o else o')
  IsSound-if true h h' = h
  IsSound-if false h h' = h'

  cores-launch_core :
      (o : Orchestrator)
      → cores m (launch_core m o).1 ≡ (
          if (m.launch o.actions).0 == 0
          then ((m.launch o.actions).1, (m.launch o.actions).1 ∷ live m o.actions)
          else cores m o)
  unfolding launch_core
  cores-launch_core o = elim (Bool-cases ((m.launch o.actions).0 == 0)) [
    | inl ok ↦ rw ok (cores-log_line _ _ ∙ rw ok refl)
    | inr bad ↦ rw bad (rw bad refl)
  ]

  module _ (positive : (h : History) → (m.launch h).0 ≡ 0 → 0 < (m.launch h).1)
      (terminates : (h : History) → m.terminate h ≡ 0)
      (cleans : (h : History) → m.cleanup h ≡ 0) where
    pub IsSound-launch_core : (o : Orchestrator) → cores m o ≡ (0, []) → IsSound (launch_core m o).1
    IsSound-launch_core o empty = record {
      single = subst IsSingle (sym (cores-launch_core o)) (
          IsSingle-if ((m.launch o.actions).0 == 0)
            (λ ok. inr (
              positive o.actions (ground (arith, ok)),
              ap (λ v. (m.launch o.actions).1 ∷ v.1) empty,
            ))
            (λ _. inl empty));
    }

    IsSound-restart_core :
        (reason : Bytes) (o : Orchestrator) → IsSound o → IsSound (restart_core m reason o)
    unfolding restart_core
    IsSound-restart_core reason o h = IsSound-log_line _ (
        IsSound-launch_core _
          (cores-terminate_core terminates cleans _ (IsSound-log_line _ h).single))

    IsSound-handle_control_client :
        (token : Bytes) (o : Orchestrator) → IsSound o → IsSound (handle_control_client m token o)
    unfolding handle_control_client
    IsSound-handle_control_client token o h =
        IsSound-if _ (IsSound-restart_core _ _ (IsSound-eq refl h)) (IsSound-eq refl h)

    IsSound-note_probe :
        (alive : Bool) (o : Orchestrator) → IsSound o → IsSound (note_probe m alive o)
    unfolding note_probe
    IsSound-note_probe true o h = IsSound-eq refl h
    IsSound-note_probe false o h =
        let warned = IsSound-log_line _ (IsSound-eq refl h) in
        IsSound-if _ (IsSound-eq refl (IsSound-restart_core _ _ warned)) warned

    IsSound-check_health :
        (port : ℤ) (o : Orchestrator) → IsSound o → IsSound (check_health m port o)
    unfolding check_health
    IsSound-check_health port o h =
        let now = m.tick o.actions in
        let due =
          leb (health_check_interval_sec * m.tick_freq % 2 ^ 64)
            ((now + 2 ^ 64 - o.last_health_check) % 2 ^ 64) in
        let ticking : IsSound (act ticked o) = IsSound-eq refl h in
        let probing : IsSound
            (act (probed port) (record (act ticked o) { last_health_check = now })) =
          IsSound-eq refl h in
        IsSound-if due (IsSound-note_probe (core_is_alive m port (act ticked o).actions) _ probing)
          ticking

    pub IsSound-round :
        (token : Bytes) (port : ℤ) (client : Bool) (o : Orchestrator)
        → IsSound o
        → IsSound (round m token port client o)
    unfolding round
    IsSound-round token port client o h =
        IsSound-check_health port _ (IsSound-if client (IsSound-handle_control_client token o h) h)
