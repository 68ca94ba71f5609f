-- ===== src/OpAmp/State.antt =====
-- opamp.go: what the service keeps, what it is made with, and its answers.
use opampcommander.Base.{
  ℕ, ℤ, pos, negsuc, zero, suc, ◌*◌, ◌^◌, String, List, nat_eq, string_eq, Assoc, Error, Result,
}
use opampcommander.Agent.Types.{Uuid}
use opampcommander.Agent.Health.{Time}
use opampcommander.Agent.Settings.{ConnectionHash}
use opampcommander.Store.Ops.{Store}
use opampcommander.Group.Types.{AgentGroup}
use opampcommander.Group.Resolve.{Ports}
use opampcommander.AgentService.{AgentService}
use opampcommander.AgentService.{State as AgentsState}
use opampcommander.AgentService.Cache.{TtlCache}
use opampcommander.Connection.Service.{Names, Connections}
use opampcommander.Discovery.{Host, Container}
use opampcommander.ServerToAgent.Message.{Message, AgentPackage, Protocol, Library}
use opampcommander.OpAmp.ToDomain.{Formats}

abbrev pub default_heartbeat_save_throttle : ℕ
default_heartbeat_save_throttle = 10 * 10 ^ 9

abbrev pub default_last_save_at_gc_interval : ℕ
default_last_save_at_gc_interval = 5 * 60 * 10 ^ 9

abbrev pub default_last_save_at_ttl : ℕ
default_last_save_at_ttl = 30 * 60 * 10 ^ 9

-- The fields of `Service` that do not change, with the parameters of the parts that it calls. The
-- groups are those that the agent group service lists.
pub record Service (C : Type 0) : Type 0 where
  pub names : Names
  pub formats : Formats
  pub cache : TtlCache C
  pub agents : AgentService
  pub hash : ConnectionHash
  pub ports : Ports
  pub groups : List AgentGroup
  pub protocol : Protocol
  pub library : Library
  pub get_package : String → String → Result AgentPackage
  pub heartbeat_save_throttle : ℕ
  pub last_save_at_ttl : ℤ
  pub last_save_at_gc_interval : ℤ

pub record State (C : Type 0) : Type 0 where
  pub agents : AgentsState C
  pub connections : Connections
  pub last_save_at : Assoc Time
  pub hosts : Store String Host
  pub containers : Store String Container

-- The times that the handler reads, in order, and the UUID that it may give out.
pub record Readings : Type 0 where
  pub checked_at : Time
  pub conflict_at : Time
  pub recorded_at : Time
  pub loaded_at : Time
  pub created_at : Time
  pub received_at : Time
  pub reported_at : Time
  pub throttled_at : Time
  pub observed_at : Time
  pub fresh_uid : Uuid

pub data ErrorType : Type 0 where
  bad_request unavailable : ErrorType

-- A ServerToAgent message: a new UID for an agent, an error, or what the builder made.
pub data Response : Type 0 where
  renewal : Uuid → Uuid → Response
  failure : Uuid → ErrorType → Error → Response
  desired : Message → Response

positive_or : ℕ → ℤ → ℕ
positive_or fallback (pos zero) = fallback
positive_or fallback (pos (suc n)) = suc n
positive_or fallback (negsuc n) = fallback

module _ {C : Type 0} (svc : Service C) where
  unfoldable pub effective_last_save_at_ttl : ℕ
  unfolding positive_or
  effective_last_save_at_ttl = positive_or default_last_save_at_ttl svc.last_save_at_ttl

  unfoldable pub effective_last_save_at_gc_interval : ℕ
  unfolding positive_or
  effective_last_save_at_gc_interval =
      positive_or default_last_save_at_gc_interval svc.last_save_at_gc_interval
