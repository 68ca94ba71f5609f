-- ===== src/Group.antt =====
-- pkg/apiserver/domain/agent/agentgroup.go and service/agentgroup.go: agent groups, and how their
-- configuration reaches the agents that they select.
pub mod Types
pub mod Deletion
pub mod Select
pub mod Resolve
pub mod Connect
pub mod Apply
pub mod Condition
