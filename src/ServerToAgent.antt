-- ===== src/ServerToAgent.antt =====
-- pkg/apiserver/domain/agent/service/servertoagent.go: the message that tells an agent its desired
-- state.
pub mod Message
pub mod Build
