-- ===== src/Engine.antt =====
-- services/agent-runtime/app/engine
pub mod StateMachine
pub mod CostTracker
pub mod Memory
pub mod Llm
pub mod ContextManager
pub mod ToolRegistry
pub mod AgentLoop
pub mod Heartbeat
pub mod AgentManager
pub mod TriggerConsumer
pub mod EngineService
pub mod ToolDefinitions
