-- ===== src/OpAmp/Absorbed.antt =====
-- opamp.go: what a report does to the parts of an agent that a write needs, and to its description.
use opampcommander.Base.{
  ℕ, String, ◌≡◌, refl, ap, ◌∙◌, Bool, not, Option, none, some, ◌==◌, nat_eq, string_eq, if_both,
  ok, ◌>>=◌,
}
use opampcommander.Agent.Types.{Uuid, Agent}
use opampcommander.Agent.Health.{Time}
use opampcommander.Agent.Description.{Description, service_of}
use opampcommander.Agent.Reports.{
  report_description, report_component_health, report_capabilities, report_effective_config,
  report_remote_config_status, report_connection_settings_status, report_package_statuses,
  report_custom_capabilities, report_available_components, record_last_reported,
}
use opampcommander.Group.Apply.Desired.{metadata-apply_matching_agent_groups}
use opampcommander.OpAmp.Proto.{AgentToServer, AgentDescription}
use opampcommander.OpAmp.ToDomain.{desc_to_domain}
use opampcommander.OpAmp.State.{Service as OpAmpService}
use opampcommander.OpAmp.Report.{
  report, regroup, report_and_reconcile_groups, maybe_apply_matching_agent_groups, identity_changed,
  snapshot_identity, IdentitySnapshot,
}

-- The parts of an agent that most of the reports leave alone.
pub record Core : Type 0 where
  pub instance_uid : Uuid
  pub resource_version : ℕ
  pub description : Description
  pub sequence_num : ℕ
  pub connected : Bool
  pub last_reported_at : Time

abbrev pub core : Agent → Core
core a = record {
  instance_uid = a.metadata.instance_uid;
  resource_version = a.metadata.resource_version;
  description = a.metadata.description;
  sequence_num = a.status.sequence_num;
  connected = a.status.connected;
  last_reported_at = a.status.last_reported_at;
}

abbrev pub described_as : Option Description → Core → Core
described_as none c = c
described_as (some d) c = record c { description = d }

core-report_description :
    (o : Option Description) (a : Agent) → core (report_description o a) ≡ described_as o (core a)
unfolding report_description
core-report_description none a = refl
core-report_description (some d) a =
    if_both (λ (b : Agent). core b ≡ record (core a) { description = d })
      ((service_of d).namespace == "") (λ q. refl) (λ q. refl)

-- What a report leaves alone with a value and without one, it leaves alone.
pub part_kept :
    {P R : Type 0} (part : Agent → P) (take_over : Option R → Agent → Agent)
    → ((a : Agent) → part (take_over none a) ≡ part a)
    → ((r : R) (a : Agent) → part (take_over (some r) a) ≡ part a)
    → (o : Option R) (a : Agent) → part (take_over o a) ≡ part a
part_kept part take_over none_kept some_kept none a = none_kept a
part_kept part take_over none_kept some_kept (some r) a = some_kept r a

module _ {C : Type 0} (svc : OpAmpService C) where
  -- The agent once its report was taken over.
  pub core-report :
      (by : Option String) (now : Time) (m : AgentToServer) (a : Agent)
      → (b : Agent) × ((report svc by now m a ≡ ok b)
          × (core b
              ≡ described_as
                  (desc_to_domain svc.formats m.agent_description)
                  (record (core a) { sequence_num = m.sequence_num; last_reported_at = now })))
  unfolding report report_component_health report_capabilities report_effective_config
      report_remote_config_status report_connection_settings_status report_package_statuses
      report_custom_capabilities report_available_components record_last_reported
  core-report by now m a = (
    _,
    (
      refl,
      part_kept core report_available_components (λ a. refl) (λ r a. refl) _ _
          ∙ part_kept core report_custom_capabilities (λ a. refl) (λ r a. refl) _ _
          ∙ part_kept core report_package_statuses (λ a. refl) (λ r a. refl) _ _
          ∙ part_kept core report_connection_settings_status (λ a. refl) (λ r a. refl) _ _
          ∙ part_kept core report_remote_config_status (λ a. refl) (λ r a. refl) _ _
          ∙ part_kept core report_effective_config (λ a. refl) (λ r a. refl) _ _
          ∙ part_kept core report_component_health (λ a. refl) (λ r a. refl) _ _
          ∙ core-report_description (desc_to_domain svc.formats m.agent_description) _,
    ),
  )

  core-maybe_apply :
      (prev : IdentitySnapshot) (a : Agent)
      → core (maybe_apply_matching_agent_groups svc prev a) ≡ core a
  unfolding maybe_apply_matching_agent_groups
  core-maybe_apply prev a =
      let (m, s) = metadata-apply_matching_agent_groups svc.hash svc.ports svc.groups a in
      if_both (λ (b : Agent). core b ≡ core a) (not (identity_changed prev a)) (λ q. refl)
        (λ q. rw (m, s) refl)

  core-regroup :
      (o : Option AgentDescription) (prev : IdentitySnapshot) (a : Agent)
      → core (regroup svc o prev a) ≡ core a
  unfolding regroup
  core-regroup none prev a = refl
  core-regroup (some d) prev a = core-maybe_apply prev a

  -- Taking over a report does not fail; it sets the sequence number, the time and, where the message has
  -- one, the description, and keeps the UID, the version and whether the agent is connected.
  pub core-report_and_reconcile_groups :
      (by : Option String) (now : Time) (m : AgentToServer) (a : Agent)
      → (b : Agent) × ((report_and_reconcile_groups svc by now m a ≡ ok b)
          × (core b
              ≡ described_as
                  (desc_to_domain svc.formats m.agent_description)
                  (record (core a) { sequence_num = m.sequence_num; last_reported_at = now })))
  unfolding report_and_reconcile_groups
  core-report_and_reconcile_groups by now m a =
      let (b, (e, kept)) = core-report by now m a in
      (
        regroup svc m.agent_description (snapshot_identity a) b,
        (
          ap
              (λ r. r >>= λ reported.
                ok (regroup svc m.agent_description (snapshot_identity a) reported))
              e,
          core-regroup m.agent_description (snapshot_identity a) b ∙ kept,
        ),
      )
