-- ===== src/Group/Connect/Effect.antt =====
-- The effect of a group's connection settings on an agent, as a new `Spec.ConnectionInfo`.
use opampcommander.Base.{arith}
use opampcommander.Base.{GoMap, refl, ap, sym, ◌∙◌}
use opampcommander.Agent.Settings.{
  AgentOpAmpConnectionSettings, AgentTelemetryConnectionSettings, AgentOtherConnectionSettings,
}
use opampcommander.Base.{
  String, ◌≡◌, refl, Option, none, some, nat_eq, string_eq, Error, Result, ok, err,
}
use opampcommander.Agent.Types.{Agent}
use opampcommander.Agent.Settings.{ConnectionInfo, ConnectionHash, new_connection_info}
use opampcommander.Agent.Connecting.{apply_connection_settings}
use opampcommander.Group.Types.{AgentGroupConnectionConfig, AgentGroup}
use opampcommander.Agent.Connecting.{applied}
use opampcommander.Group.Resolve.{Ports}
use opampcommander.Group.Connect.{
  connect, build_opamp_connection, build_telemetry_connection, build_other_connections,
  apply_group_connection_settings,
}

-- The connection info that a group offers, if it has connection settings.
abbrev pub offered_by :
    ConnectionHash
    → Ports
    → String
    → Option AgentGroupConnectionConfig
    → Option (Result ConnectionInfo)
offered_by h p namespace none = none
offered_by h p namespace (some conn) = some (
    new_connection_info h (build_opamp_connection p namespace conn.opamp_connection)
      (build_telemetry_connection p namespace conn.own_metrics)
      (build_telemetry_connection p namespace conn.own_logs)
      (build_telemetry_connection p namespace conn.own_traces)
      (build_other_connections p namespace conn.other_connections))

abbrev pub offered : ConnectionHash → Ports → AgentGroup → Option (Result ConnectionInfo)
offered h p g = offered_by h p g.metadata.namespace g.spec.agent_connection_config

abbrev pub info_after :
    Option (Result ConnectionInfo) → Option ConnectionInfo → Option ConnectionInfo
info_after none c = c
info_after (some (ok ci)) c = some ci
info_after (some (err e)) c = c

abbrev pub failure : Option (Result ConnectionInfo) → Option Error
failure none = none
failure (some (ok ci)) = none
failure (some (err e)) = some e

abbrev pub with_info : Option ConnectionInfo → Agent → Agent
with_info c a = record a { spec = record a.spec { connection_info = c } }

effect_of_result :
    (a : Agent) (r : Result ConnectionInfo)
    → applied a r ≡ (with_info (info_after (some r) a.spec.connection_info) a, failure (some r))
effect_of_result a (ok ci) = refl
effect_of_result a (err e) = refl

effect_of_config :
    (h : ConnectionHash) (p : Ports) (namespace : String) (c : Option AgentGroupConnectionConfig)
    (a : Agent)
    → connect h p namespace c a ≡ (
      with_info (info_after (offered_by h p namespace c) a.spec.connection_info) a,
      failure (offered_by h p namespace c),
    )
unfolding connect apply_connection_settings
effect_of_config h p namespace none a = refl
effect_of_config h p namespace (some conn) a = effect_of_result a _

pub apply_group_connection_settings-effect :
    (h : ConnectionHash) (p : Ports) (g : AgentGroup) (a : Agent)
    → apply_group_connection_settings h p g a
      ≡ (with_info (info_after (offered h p g) a.spec.connection_info) a, failure (offered h p g))
unfolding apply_group_connection_settings
apply_group_connection_settings-effect h p g a =
    effect_of_config h p g.metadata.namespace g.spec.agent_connection_config a

new_connection_info-opamp :
    (h : ConnectionHash) (o : Option AgentOpAmpConnectionSettings)
    (m l t : Option AgentTelemetryConnectionSettings) (x : GoMap AgentOtherConnectionSettings)
    (ci : ConnectionInfo)
    → new_connection_info h o m l t x ≡ ok ci
    → ci.opamp ≡ o
unfolding new_connection_info
new_connection_info-opamp h o m l t x ci e = ground arith

succeeded :
    (r : Result ConnectionInfo) → failure (some r) ≡ none → (ci : ConnectionInfo) × (r ≡ ok ci)
succeeded (ok ci) f = (ci, refl)
succeeded (err e) f = cc

offered_by-opamp :
    (h : ConnectionHash) (p : Ports) (namespace : String) (conn : AgentGroupConnectionConfig)
    → conn.opamp_connection ≡ none
    → failure (offered_by h p namespace (some conn)) ≡ none
    → (ci : ConnectionInfo) × (offered_by h p namespace (some conn) ≡ some (ok ci))
      × (ci.opamp ≡ none)
unfolding build_opamp_connection
offered_by-opamp h p namespace conn n f =
    let (ci, e) = succeeded _ f in
    (
      ci,
      ap some e,
      new_connection_info-opamp h _ _ _ _ _ ci e ∙ ap (build_opamp_connection p namespace) n,
    )

-- Connection settings without an OpAMP connection leave the agent with a connection info that has
-- none, if they are applied without a failure.
pub apply_group_connection_settings-opamp :
    (h : ConnectionHash) (p : Ports) (g : AgentGroup) (conn : AgentGroupConnectionConfig)
    (a : Agent)
    → g.spec.agent_connection_config ≡ some conn
    → conn.opamp_connection ≡ none
    → (apply_group_connection_settings h p g a).1 ≡ none
    → (ci : ConnectionInfo) × ((apply_group_connection_settings h p g a).0 ≡ with_info (some ci) a)
      × (ci.opamp ≡ none)
apply_group_connection_settings-opamp h p g conn a e n f =
    let effect = apply_group_connection_settings-effect h p g a in
    let o = ap (offered_by h p g.metadata.namespace) e in
    let f' = sym (ap (λ (r : Agent × Option Error). r.1) effect) ∙ f in
    let (ci, q, none_) =
      offered_by-opamp h p g.metadata.namespace conn n (sym (ap failure o) ∙ f') in
    (
      ci,
      ap (λ (r : Agent × Option Error). r.0) effect
          ∙ ap
              (λ (x : Option (Result ConnectionInfo)).
                with_info (info_after x a.spec.connection_info) a)
              (o ∙ q),
      none_,
    )
