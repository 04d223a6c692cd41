-- ===== src/Orchestrator/Health.antt =====
-- The health check and the control port: when the core is restarted.
use nxremote_api.Base.{
  ◌⊎◌, ℕ, suc, ◌+◌, ◌%◌, ◌≤◌, ◌<◌, Bool, true, false, ◌&&◌, List, [], ◌∷◌, ◌++◌, Bool-cases, inl,
  inr, ◌≡◌, refl, ap, ◌∙◌, arith, le→leb, lt→leb, ◌==◌, take, if◌then◌else◌,
}
use nxremote_api.Base.Text.{Bytes, codes}
use nxremote_api.CString.Search.{c_str, contains, contains_iff, Occurs}
use nxremote_api.CString.Format.{snprintf, decimal}
use nxremote_api.Orchestrator.{
  Action, History, launched, terminated, cleaned, closed, answered, received, act, Machine,
  Orchestrator, log_line, handle_control_client, note_probe, reply,
}
use nxremote_api.Orchestrator.Views.{view-log_line}
use nxremote_api.Orchestrator.Restart.{launches, launches-log_line, launches-restart_core}
use native.Mathlib.Decide.{dec_lt}

-- The outcomes of the probes so far, the newest first: how many at the end failed, and how often the
-- number of failures in a row came to a multiple of three.
abbrev pub trailing : List Bool → ℕ
trailing [] = 0
trailing (true ∷ probes) = 0
trailing (false ∷ probes) = suc (trailing probes)

-- 1 for a failure that makes the number in a row a multiple of three.
abbrev pub at_third : ℕ → ℕ
at_third n = if n % 3 == 0 then 1 else 0

abbrev pub restarts : List Bool → ℕ
restarts [] = 0
restarts (true ∷ probes) = restarts probes
restarts (false ∷ probes) = at_third (suc (trailing probes)) + restarts probes

module _ (m : Machine) where
  -- The probes in their order.
  unfoldable pub probe_all : List Bool → Orchestrator → Orchestrator
  probe_all [] o = o
  probe_all (alive ∷ probes) o = note_probe m alive (probe_all probes o)

  failures-log_line :
      (msg : Bytes) (o : Orchestrator)
      → (log_line m msg o).consecutive_health_failures ≡ o.consecutive_health_failures
  failures-log_line = view-log_line m (λ o. o.consecutive_health_failures) (λ t o. refl) (λ o. refl)

  -- What a failed probe counts towards restarts, by the remainder of the failures before it.
  no_third : (t c : ℕ) → c ≡ t % 3 → c + 1 < 3 → (c + 1 ≡ suc t % 3) × (at_third (suc t) ≡ 0)
  no_third t c e few = (omega (arith, e), ground arith)

  third : (t c : ℕ) → c ≡ t % 3 → 3 ≤ c + 1 → (0 ≡ suc t % 3) × (at_third (suc t) ≡ 1)
  third t c e many = (omega (arith, e), ground arith)

  abbrev warned : Orchestrator → Orchestrator
  warned o =
      let n = o.consecutive_health_failures + 1 in
      log_line m (snprintf 64 (codes "[HEALTH] core unreachable (" ++ decimal n ++ codes "/3)"))
        (record o { consecutive_health_failures = n })

  -- One failed probe.
  note_probe-failed :
      (o : Orchestrator) (t : ℕ)
      → o.consecutive_health_failures ≡ t % 3
      → ((note_probe m false o).consecutive_health_failures ≡ suc t % 3)
        × (launches (note_probe m false o).actions ≡ at_third (suc t) + launches o.actions)
  unfolding note_probe
  note_probe-failed o t count = elim (dec_lt (o.consecutive_health_failures + 1) 3) [
    | yes few ↦
        let (next, none_yet) = no_third t o.consecutive_health_failures count few in
        rw (lt→leb 3 (o.consecutive_health_failures + 1) few)
          (failures-log_line _ _ ∙ next, launches-log_line m _ _ ∙ omega (arith, none_yet))
    | no many ↦
        let (next, one_more) = third t o.consecutive_health_failures count (omega arith) in
        let started = launches-restart_core m (codes "health check failed") (warned o) in
        let quiet =
          launches-log_line m _
            (record o { consecutive_health_failures = o.consecutive_health_failures + 1 }) in
        rw (le→leb 3 (o.consecutive_health_failures + 1) (omega arith))
          (next, started ∙ ap suc quiet ∙ omega (arith, one_more))
  ]

  -- The health check against the outcomes of its probes, whatever they are, from a fresh count: the
  -- counter is the number of failures in a row, up to the last restart, and the core is started again
  -- exactly at every third failure in a row.
  pub probe_all_lem :
      (probes : List Bool) (o : Orchestrator)
      → o.consecutive_health_failures ≡ 0
      → ((probe_all probes o).consecutive_health_failures ≡ trailing probes % 3)
        × (launches (probe_all probes o).actions ≡ restarts probes + launches o.actions)
  unfolding probe_all note_probe
  probe_all_lem [] o fresh = (omega (arith, fresh), omega arith)
  probe_all_lem (true ∷ probes) o fresh = (omega arith, (probe_all_lem probes o fresh).1)
  probe_all_lem (false ∷ probes) o fresh =
      let (count, started) = probe_all_lem probes o fresh in
      let (count', started') = note_probe-failed (probe_all probes o) (trailing probes) count in
      (count', started' ∙ omega (arith, started))

-- What was done to a core: its starts, the calls that end it, and the cleanups, the newest first.
abbrev pub deeds : History → List Action
deeds [] = []
deeds (launched ∷ h) = launched ∷ deeds h
deeds (terminated ∷ h) = terminated ∷ deeds h
deeds (cleaned pid ∷ h) = cleaned pid ∷ deeds h
deeds (a ∷ h) = deeds h

-- What was done to the core, and which is tracked.
abbrev fate : Orchestrator → List Action × ℕ
fate o = (deeds o.actions, o.core_pid)

fate-if : (b : Bool) (o o' : Orchestrator) → b ≡ false → fate (if b then o else o') ≡ fate o'
fate-if true o o' h = cc h
fate-if false o o' h = refl

fate-answered :
    (bytes : Bytes) (o : Orchestrator)
    → fate (act closed (act (answered bytes) (act received o))) ≡ fate o
fate-answered bytes o = refl

module _ (m : Machine) (token : Bytes) (o : Orchestrator) where
  -- The request that the client of the control port sends.
  abbrev pub control_request : Bytes
  control_request = c_str (take 511 (m.request o.actions))

  -- The header with the token, as far as its buffer goes, and the route stand in it.
  abbrev pub IsPermitted : Type 0
  IsPermitted =
      Occurs (snprintf 160 (codes "X-API-Token: " ++ token)) control_request
      × Occurs (codes "POST /self_restart") control_request

  fate-unpermitted :
      (contains control_request (snprintf 160 (codes "X-API-Token: " ++ token))
          && contains control_request (codes "POST /self_restart"))
        ≡ false
      → fate (handle_control_client m token o) ≡ fate o
  unfolding handle_control_client
  fate-unpermitted h =
      fate-if _ _ _ h
      ∙ fate-answered
          (reply (contains control_request (snprintf 160 (codes "X-API-Token: " ++ token)))
            (contains control_request (codes "POST /self_restart")))
          o

  launches-permitted :
      (contains control_request (snprintf 160 (codes "X-API-Token: " ++ token))
          && contains control_request (codes "POST /self_restart"))
        ≡ true
      → launches (handle_control_client m token o).actions ≡ suc (launches o.actions)
  unfolding handle_control_client launches
  launches-permitted h = rw h (launches-restart_core m _ _ ∙ omega arith)

  -- A client of the control port whose request holds the header with the token and the route has the core
  -- started again, once. Any other leaves the core as it is: nothing is started, terminated or cleaned
  -- up, and the tracked process stays the same.
  pub handle_control_client_lem :
      (IsPermitted
        × (launches (handle_control_client m token o).actions ≡ suc (launches o.actions)))
      ⊎ (¬ IsPermitted
          × (deeds (handle_control_client m token o).actions ≡ deeds o.actions)
          × ((handle_control_client m token o).core_pid ≡ o.core_pid))
  handle_control_client_lem =
      let header = snprintf 160 (codes "X-API-Token: " ++ token) in
      let route = codes "POST /self_restart" in
      let holds = contains_iff control_request in
      elim (Bool-cases (contains control_request header)) [
        | inr e ↦
            let same = fate-unpermitted (rw e refl) in
            inr ((λ h. cc (e, (holds header).1 h.0)), ap (λ v. v.0) same, ap (λ v. v.1) same)
        | inl e ↦ elim (Bool-cases (contains control_request route)) [
          | inr e' ↦
              let same = fate-unpermitted (rw (e, e') refl) in
              inr ((λ h. cc (e', (holds route).1 h.1)), ap (λ v. v.0) same, ap (λ v. v.1) same)
          | inl e' ↦
              inl (((holds header).0 e, (holds route).0 e'), launches-permitted (rw (e, e') refl))
        ]
      ]
