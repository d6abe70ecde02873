-- ===== src/Examples/Agents.antt =====
-- The theorem on pinging, applied to three sessions of which the second gets an answer.
use rmw_microxrcedds.Base.{◌≡◌, arith, false, some, [], ◌∷◌, ◌==◌}
use rmw_microxrcedds.Handles.{ok, error}
use rmw_microxrcedds.Microros.{rmw_uros_ping_agent}
use rmw_microxrcedds.Microros.Ping.{rmw_uros_ping_agent-answers}
use rmw_microxrcedds.Examples.{chain_pool-IsStatic, a_context, state}

rmw_uros_ping_agent-answers_example :
    rmw_uros_ping_agent 3 error false (λ p. p == 2) state ≡ some (ok, 1 ∷ 2 ∷ [])
rmw_uros_ping_agent-answers_example =
    rmw_uros_ping_agent-answers (λ p. p == 2) state 3 error false 1 (2 ∷ 3 ∷ []) (4 ∷ [])
      (chain_pool-IsStatic a_context) (omega arith)
