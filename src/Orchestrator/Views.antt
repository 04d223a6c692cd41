-- ===== src/Orchestrator/Views.antt =====
-- A view that neither lines of the log nor waits change.
use nxremote_api.Base.{ℕ, zero, suc, Bool, true, false, Bool-cases, inl, inr, ◌≡◌, refl, ◌∙◌}
use nxremote_api.Base.Text.{Bytes}
use nxremote_api.Orchestrator.{
  logged, waited, Slice, silent, unread, event, Machine, Orchestrator, act, log_line, is_end,
  after_slice, await_exit, log_unless,
}

module _ {V : Type 0} (m : Machine) (view : Orchestrator → V)
    (logs : (text : Bytes) (o : Orchestrator) → view (act (logged text) o) ≡ view o)
    (waits : (o : Orchestrator) → view (act waited o) ≡ view o) where
  pub view-log_line : (msg : Bytes) (o : Orchestrator) → view (log_line m msg o) ≡ view o
  unfolding log_line
  view-log_line msg o = elim (Bool-cases (m.can_log o.actions)) [
    | inl e ↦ rw e (logs _ o)
    | inr e ↦ rw e refl
  ]

  view-after_slice :
      (target : ℕ) (w : Slice) (next : Orchestrator → Bool × Orchestrator) (o : Orchestrator)
      → ((o' : Orchestrator) → view (next o').1 ≡ view o')
      → view (after_slice m target w next o).1 ≡ view o
  unfolding after_slice
  view-after_slice target silent next o same = same o
  view-after_slice target unread next o same = same o
  view-after_slice target (event kind pid) next o same =
      elim (Bool-cases (is_end m target kind pid)) [
        | inl e ↦ rw e (view-log_line _ o)
        | inr e ↦ rw e (same _ ∙ view-log_line _ o)
      ]

  pub view-await_exit :
      (slices target : ℕ) (o : Orchestrator) → view (await_exit m slices target o).1 ≡ view o
  unfolding await_exit
  view-await_exit zero target o = refl
  view-await_exit (suc slices) target o =
      view-after_slice target (m.wait o.actions) (await_exit m slices target) (act waited o)
        (λ o'. view-await_exit slices target o')
      ∙ waits o

  pub view-log_unless : (exited : Bool) (o : Orchestrator) → view (log_unless m exited o) ≡ view o
  view-log_unless true o = refl
  view-log_unless false o = view-log_line _ o
