-- ===== src/Tests.antt =====
-- Runs of the model on concrete services.
mod Fixtures
mod Lifecycle
mod Budgets
mod Runs
mod Tools
mod Triggers
mod Consumer
mod Agents
mod Service
mod Tenants
mod Queries
mod Platforms
mod Rest
