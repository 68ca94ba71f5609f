-- ===== src/Agent.antt =====
-- pkg/apiserver/domain/agent: the agent and what the server wants of it.
pub mod Capabilities
pub mod Description
pub mod Settings
pub mod Health
pub mod Types
pub mod Conditions
pub mod Methods
pub mod Reports
pub mod Connecting
pub mod Options
pub mod Clone
