-- ===== src/OpAmp/Report.antt =====
-- opamp.go: taking over what an agent reports, and the groups that apply to it from then on.
use opampcommander.Base.{
  String, Bool, true, not, Option, none, some, if◌then◌else◌, ◌==◌, nat_eq, string_eq, GoMap, elems,
  Result, ok, ◌>>=◌,
}
use opampcommander.Agent.Types.{Agent}
use opampcommander.Agent.Health.{Time}
use opampcommander.Agent.Reports.{
  report_description, report_component_health, report_capabilities, report_effective_config,
  report_remote_config_status, report_connection_settings_status, report_package_statuses,
  report_custom_capabilities, report_available_components, record_last_reported,
}
use opampcommander.Group.Apply.{apply_matching_agent_groups}
use opampcommander.OpAmp.Proto.{AgentToServer, AgentDescription}
use opampcommander.OpAmp.ToDomain.{
  desc_to_domain, health_to_domain, effective_config_to_domain, remote_config_status_to_domain,
  connection_settings_status_to_domain, package_status_to_domain, custom_capabilities_to_domain,
  available_components_to_domain,
}
use opampcommander.OpAmp.State.{Service as OpAmpService}
use opampcommander.OpAmp.Conflict.{map_equal}

pub record IdentitySnapshot : Type 0 where
  pub namespace : String
  pub identifying_attributes : GoMap String
  pub non_identifying_attributes : GoMap String

unfoldable pub snapshot_identity : Agent → IdentitySnapshot
snapshot_identity a = record {
  namespace = a.metadata.namespace;
  identifying_attributes = a.metadata.description.identifying_attributes;
  non_identifying_attributes = a.metadata.description.non_identifying_attributes;
}

unfoldable pub identity_changed : IdentitySnapshot → Agent → Bool
unfolding map_equal
identity_changed prev a =
    if not (prev.namespace == a.metadata.namespace)
    then true
    else if not (
        map_equal (elems prev.identifying_attributes)
          (elems a.metadata.description.identifying_attributes))
    then true
    else not (
        map_equal (elems prev.non_identifying_attributes)
          (elems a.metadata.description.non_identifying_attributes))

module _ {C : Type 0} (svc : OpAmpService C) where
  -- `by` is the ID of the current server, if it is known. None of the reports fails.
  unfoldable pub report : Option String → Time → AgentToServer → Agent → Result Agent
  report by now m a =
      ok (record_last_reported by now m.sequence_num a)
      >>= (λ a. ok (report_description (desc_to_domain svc.formats m.agent_description) a))
      >>= (λ a. ok (report_component_health (health_to_domain m.health) a))
      >>= (λ a. ok (report_capabilities (some m.capabilities) a))
      >>= (λ a. ok (report_effective_config (effective_config_to_domain m.effective_config) a))
      >>= (λ a. ok (
          report_remote_config_status (remote_config_status_to_domain m.remote_config_status now)
            a))
      >>= (λ a. ok (
          report_connection_settings_status
            (connection_settings_status_to_domain m.connection_settings_status) a))
      >>= (λ a. ok (report_package_statuses (package_status_to_domain m.package_statuses) a))
      >>= (λ a.
          ok (report_custom_capabilities (custom_capabilities_to_domain m.custom_capabilities) a))
      >>= (λ a. ok (
          report_available_components
            (available_components_to_domain svc.formats m.available_components) a))

  -- A failure of the groups is logged.
  unfoldable pub maybe_apply_matching_agent_groups : IdentitySnapshot → Agent → Agent
  unfolding identity_changed
  maybe_apply_matching_agent_groups prev a =
      if not (identity_changed prev a)
      then a
      else (apply_matching_agent_groups svc.hash svc.ports svc.groups a).0

  unfoldable pub regroup : Option AgentDescription → IdentitySnapshot → Agent → Agent
  unfolding maybe_apply_matching_agent_groups
  regroup none prev a = a
  regroup (some desc) prev a = maybe_apply_matching_agent_groups prev a

  unfoldable pub report_and_reconcile_groups :
      Option String → Time → AgentToServer → Agent → Result Agent
  unfolding report regroup snapshot_identity
  report_and_reconcile_groups by now m a = report by now m a >>= λ reported.
      ok (regroup m.agent_description (snapshot_identity a) reported)
