-- ===== src/Orchestrator/Main.antt =====
-- `main`, with its loop.
use nxremote_api.Base.{ℕ, zero, suc, Bool, Option, none, some}
use nxremote_api.Base.Int.{ℤ}
use nxremote_api.Base.Text.{Bytes}
use nxremote_api.Orchestrator.{History, Machine, round}
use nxremote_api.Orchestrator.Start.{System, M, pure, ◌>>=◌, ◌>>◌, modify, ask, start}

-- The settings that are loaded once, and whether `select` and `accept` give a client in a round.
pub record Control : Type 0 where
  pub token : Bytes
  pub port : ℤ
  pub client : History → Bool

module _ (y : System) (m : Machine) (c : Control) where
  -- The variables of the loop.
  unfoldable pub begin : M (Unit {0})
  begin = do
    now ← ask m.tick
    modify (λ o. record o { consecutive_health_failures = 0; last_health_check = now })

  unfoldable pub rounds : ℕ → M (Unit {0})
  rounds zero = pure tt
  rounds (suc n) = do modify (λ o. round m c.token c.port (c.client o.actions) o); rounds n

  unfoldable pub watch : ℕ → Option ℤ → M (Option ℤ)
  unfolding begin rounds
  watch n none = pure none
  watch n (some fd) = do begin; rounds n; pure (some fd)

  -- `main`, with so many rounds of its loop; `none` is its `return 1`.
  unfoldable pub main : ℕ → M (Option ℤ)
  unfolding watch
  main n = do server ← start y m; watch n server
