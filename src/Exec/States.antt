-- ===== src/Exec/States.antt =====
-- `AgentState` of services/agent-runtime/app/engine/state_machine.py, which the exceptions name.

-- ACTIVE is "ready for triggers"; ERROR is recoverable.
pub data AgentState : Type 0 where
  created configured active running paused error terminated : AgentState
