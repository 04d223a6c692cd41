-- ===== src/Orchestrator/Single/Whole.antt =====
-- The cores of `main`, from its start over any number of rounds.
use nxremote_api.Base.{ℕ, List, [], ◌≡◌}
use nxremote_api.Base.Hoare.{Hoare}
use nxremote_api.Orchestrator.{Machine, Orchestrator}
use nxremote_api.Orchestrator.Start.{System, M}
use nxremote_api.Orchestrator.Single.{cores}

module _ (m : Machine) where
  -- A call that neither starts nor ends a core.
  record Same {A : Type 0} (c : M A) : Type 0 where
    run : (o : Orchestrator) → cores m (c o).1 ≡ cores m o

  module _ (y : System) where
    -- No core before the start, and at most the tracked one behind it.
    abbrev None : ℕ × List ℕ → Type 0
    None v = v ≡ (0, [])
