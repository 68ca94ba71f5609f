-- ===== src/Group/Condition.antt =====
-- service/agentgroup.go: the condition by which an agent shows what a group assigned to it.
pub mod Repeated
use opampcommander.Base.{
  ℕ, ℤ, pos, negsuc, zero, suc, ◌+◌, ◌-◌, ◌≤◌, ◌<◌, bit_and, bit_or, String, ◌≡◌, refl, sym, ap,
  ◌∙◌, ◌≢◌, ◌↔◌, ◌⊎◌, inl, inr, Bool, true, false, not, ◌&&◌, ◌||◌, Option, none, some, List, [],
  ◌∷◌, ◌++◌, map, arith, eq_iff, ltb, leb, nat_beq, nat_beq_iff, if◌then◌else◌, ◌==◌, Eq, nat_eq,
  string_eq, str_eq_refl, Bool-cases, Option-cases, is_some, GoSlice, Assoc, GoMap, Bytes, elems,
  length, is_cons, length-append, lookup, insert, remove, copy_into, keys, lookup-insert,
  lookup-remove, string_or_empty, get_string, holds_value, contains_all, Error, resource_not_exist,
  conflict, unsupported_agent_operation, encode_failed, invalid_remote_config,
  duplicate_remote_config_name, invalid_continue_token, Result, ok, err, ◌>>=◌, >>=-ok,
}
use opampcommander.Base.MapLaws.{
  IsMap, or_else, or_else-none, insert-IsMap, lookup-copy_into, copy_into-IsMap, contains_all_sound,
  contains_all_complete, lookup-tail, lookup-head,
}
use opampcommander.Agent.Types.{
  Uuid, uuid_nil, AgentCustomCapabilities, AgentMetadata, AgentConfigFile, AgentConfigMap,
  AgentSpecRemoteConfig, AgentSpecPackage, AgentRestartInfo, AgentSpec, condition_type_connected,
  condition_type_registered, condition_type_instance_uid_conflict,
  condition_type_remote_config_applied, condition_status_true, condition_status_false, Condition,
  AgentRemoteConfigStatus, AgentConnectionSettingsStatus, remote_config_status_unset,
  connection_settings_status_unset, AgentEffectiveConfig, AgentPackageStatusEntry,
  AgentPackageStatuses, AgentAvailableComponents, ConnectionType, AgentStatus, Agent,
}
use opampcommander.Agent.Health.{
  Time, is_zero, sub_lt, ComponentHealth, component_health, HealthMap, HealthEntries, healthy,
  start_time, ComponentDetails, component_details, DetailsMap, DetailsEntries,
}
use opampcommander.Agent.Settings.{
  AgentCertificate, AgentOpAmpConnectionSettings, AgentTelemetryConnectionSettings,
  AgentOtherConnectionSettings, ConnectionInfo, ConnectionHash, opamp_has_endpoint,
  telemetry_has_endpoint, certificate_is_empty, has_connection_settings, other_connections,
  update_hash, new_connection_info, set_opamp, set_own_metrics, set_own_logs, set_own_traces,
  set_other_connection,
}
use opampcommander.Agent.Description.{
  Description, service_of, attr, Os, Service, Host, Container, K8s, Cloud, EnvironmentKind,
  Platform, os_of, host_of, container_of, k8s_of, cloud_of, host_is_zero, container_is_zero,
  k8s_is_zero, environment_kind, platform_of, agent_type,
}
use Prim.Native.String.{◌++◌ as str_append}
use opampcommander.Agent.Health.{Time}
use opampcommander.Agent.Methods.{has_assigned_remote_config, is_remote_config_supported}
use opampcommander.Agent.Conditions.{get_condition, set_condition_at}
use opampcommander.Group.Types.{AgentGroup}

abbrev agent_group_service_name : String
agent_group_service_name = "AgentGroupService"

unfoldable pub reported_status : Agent → String
reported_status a =
    if is_remote_config_supported a then condition_status_true else condition_status_false

differs : Option Condition → String → String → Bool
differs none status message = true
differs (some prev) status message = not (prev.status == status) || not (prev.message == message)

-- `quote` is the verb %q of `fmt.Sprintf`.
module _ (quote : String → String) where
  unfoldable pub reported_message : Agent → AgentGroup → String
  reported_message a g =
      if is_remote_config_supported a
      then str_append "remote config applied by agent group " (quote g.metadata.name)
      else str_append "agent group " (
          str_append (quote g.metadata.name)
            " assigned a remote config but the agent does not accept remote config (missing AcceptsRemoteConfig capability); it will not be delivered")

  -- The agent, and whether the condition changed; `now` is the clock's reading.
  unfoldable pub record_agent_remote_config_condition : Time → Agent → AgentGroup → Agent × Bool
  unfolding reported_status reported_message differs get_condition set_condition_at
      has_assigned_remote_config
  record_agent_remote_config_condition now a g =
      let status = reported_status a in
      let message = reported_message a g in
      if not (has_assigned_remote_config a) then (a, false) else (
        set_condition_at condition_type_remote_config_applied status now agent_group_service_name
            message a,
        differs (get_condition a condition_type_remote_config_applied) status message,
      )
