-- ===== src/OpAmp/Offers.antt =====
-- opamp.go: what a report does to the packages and the capabilities of an agent.
use opampcommander.Base.{
  String, ◌≡◌, refl, ap, ◌∙◌, inl, inr, not, Option, none, some, arith, nat_beq_iff, ◌==◌, nat_eq,
  string_eq, if_both, Bool-cases, ok, ◌>>=◌,
}
use opampcommander.Agent.Types.{Agent, AgentSpecPackage}
use opampcommander.Agent.Health.{Time}
use opampcommander.Agent.Capabilities.{Capabilities}
use opampcommander.Agent.Description.{Description, service_of}
use opampcommander.Agent.Reports.{
  report_description, report_component_health, report_capabilities, report_effective_config,
  report_remote_config_status, report_connection_settings_status, report_package_statuses,
  report_custom_capabilities, report_available_components, record_last_reported,
}
use opampcommander.Store.Agents.{AgentStore, with_resource_version, put_agent}
use opampcommander.Store.Versions.{stored_version, put_agent-current, put_agent-stale}
use opampcommander.Group.Apply.Desired.{
  metadata-apply_matching_agent_groups, packages_available-apply_matching_agent_groups,
}
use opampcommander.OpAmp.Proto.{AgentToServer, AgentDescription}
use opampcommander.OpAmp.ToDomain.{desc_to_domain}
use opampcommander.OpAmp.State.{Service as OpAmpService}
use opampcommander.OpAmp.Report.{
  report, regroup, report_and_reconcile_groups, maybe_apply_matching_agent_groups, identity_changed,
  snapshot_identity, IdentitySnapshot,
}
use opampcommander.OpAmp.Absorbed.{part_kept}

-- What the builder needs of an agent to offer packages.
pub record Offered : Type 0 where
  pub capabilities : Capabilities
  pub packages : Option AgentSpecPackage

abbrev pub offer : Agent → Offered
offer a = record { capabilities = a.metadata.capabilities; packages = a.spec.packages_available }

offer-report_description :
    (o : Option Description) (a : Agent) → offer (report_description o a) ≡ offer a
unfolding report_description
offer-report_description none a = refl
offer-report_description (some d) a =
    if_both (λ (b : Agent). offer b ≡ offer a) ((service_of d).namespace == "") (λ q. refl)
      (λ q. refl)

pub offer-put_agent : (a : Agent) (s : AgentStore) → offer (put_agent a s).1.0 ≡ offer a
unfolding with_resource_version
offer-put_agent a s =
    elim (Bool-cases (stored_version a.metadata.instance_uid s == a.metadata.resource_version)) [
      | inl q ↦ rw (put_agent-current a s ((nat_beq_iff _ _).0 q)) refl
      | inr q ↦ rw (put_agent-stale a s (ground (arith, q))) refl
    ]

module _ {C : Type 0} (svc : OpAmpService C) where
  offer-report :
      (by : Option String) (now : Time) (m : AgentToServer) (a : Agent)
      → (b : Agent) × ((report svc by now m a ≡ ok b)
          × (offer b
              ≡ record { capabilities = m.capabilities; packages = a.spec.packages_available }))
  unfolding report report_component_health report_capabilities report_effective_config
      report_remote_config_status report_connection_settings_status report_package_statuses
      report_custom_capabilities report_available_components record_last_reported
  offer-report by now m a = (
    _,
    (
      refl,
      part_kept offer report_available_components (λ a. refl) (λ r a. refl) _ _
          ∙ part_kept offer report_custom_capabilities (λ a. refl) (λ r a. refl) _ _
          ∙ part_kept offer report_package_statuses (λ a. refl) (λ r a. refl) _ _
          ∙ part_kept offer report_connection_settings_status (λ a. refl) (λ r a. refl) _ _
          ∙ part_kept offer report_remote_config_status (λ a. refl) (λ r a. refl) _ _
          ∙ part_kept offer report_effective_config (λ a. refl) (λ r a. refl) _ _
          ∙ ap (λ (o : Offered). record { capabilities = m.capabilities; packages = o.packages })
              (part_kept offer report_component_health (λ a. refl) (λ r a. refl) _ _
                ∙ offer-report_description (desc_to_domain svc.formats m.agent_description) _),
    ),
  )

  offer-maybe_apply :
      (prev : IdentitySnapshot) (a : Agent)
      → offer (maybe_apply_matching_agent_groups svc prev a) ≡ offer a
  unfolding maybe_apply_matching_agent_groups
  offer-maybe_apply prev a =
      if_both (λ (b : Agent). offer b ≡ offer a) (not (identity_changed prev a)) (λ q. refl)
        (λ q.
          rw
            (
              (metadata-apply_matching_agent_groups svc.hash svc.ports svc.groups a).0,
              packages_available-apply_matching_agent_groups svc.hash svc.ports svc.groups a,
            )
            refl)

  offer-regroup :
      (o : Option AgentDescription) (prev : IdentitySnapshot) (a : Agent)
      → offer (regroup svc o prev a) ≡ offer a
  unfolding regroup
  offer-regroup none prev a = refl
  offer-regroup (some d) prev a = offer-maybe_apply prev a

  pub offer-report_and_reconcile_groups :
      (by : Option String) (now : Time) (m : AgentToServer) (a : Agent)
      → (b : Agent) × ((report_and_reconcile_groups svc by now m a ≡ ok b)
          × (offer b
              ≡ record { capabilities = m.capabilities; packages = a.spec.packages_available }))
  unfolding report_and_reconcile_groups
  offer-report_and_reconcile_groups by now m a =
      let (b, (e, kept)) = offer-report by now m a in
      (
        regroup svc m.agent_description (snapshot_identity a) b,
        (
          ap
              (λ r. r >>= λ reported.
                ok (regroup svc m.agent_description (snapshot_identity a) reported))
              e,
          offer-regroup m.agent_description (snapshot_identity a) b ∙ kept,
        ),
      )
