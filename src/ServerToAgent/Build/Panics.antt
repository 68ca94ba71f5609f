-- ===== src/ServerToAgent/Build/Panics.antt =====
-- The nil pointers that the builder may dereference.
use opampcommander.Base.{
  String, ◌≡◌, refl, sym, subst, ◌≢◌, inl, inr, Bool-cases, ◌==◌, eq_iff, elems, is_cons, ap, ◌∙◌,
  ◌↔◌, Bool, true, false, ◌&&◌, Option, none, some, arith, if◌then◌else◌, nat_eq, string_eq,
  is_some, Result,
}
use opampcommander.Agent.Types.{Agent}
use opampcommander.Agent.Settings.{
  AgentOpAmpConnectionSettings, AgentTelemetryConnectionSettings, opamp_endpoint_or,
  telemetry_endpoint_or, ConnectionInfo, ConnectionHash, has_connection_settings,
}
use opampcommander.Agent.Methods.{has_new_packages}
use opampcommander.Group.Types.{AgentGroupConnectionConfig, AgentGroup}
use opampcommander.ServerToAgent.Message.{
  ConnectionSettingsOffers, PackagesAvailable, AgentPackage, Protocol, Library,
}
use mathlib.Core.Path.{ap₂}
use opampcommander.ServerToAgent.Build.{
  connection_info_to_protobuf, build_packages_available, message_with, build,
}
use opampcommander.Agent.Capabilities.{has_accepts_packages}
use opampcommander.Group.Resolve.{Ports}
use opampcommander.Group.Connect.{apply_group_connection_settings}
use opampcommander.Group.Connect.Effect.{apply_group_connection_settings-opamp}

abbrev pub Lookup : Type 0
Lookup = String → String → Result AgentPackage

-- The settings are there, but name no endpoint, so that the next ones are read.
abbrev pub OpAmpEmpty : Option AgentOpAmpConnectionSettings → Type 0
OpAmpEmpty o = (s : AgentOpAmpConnectionSettings) × ((o ≡ some s) × (s.destination_endpoint ≡ ""))

abbrev pub TelemetryEmpty : Option AgentTelemetryConnectionSettings → Type 0
TelemetryEmpty o =
    (s : AgentTelemetryConnectionSettings) × ((o ≡ some s) × (s.destination_endpoint ≡ ""))

-- None of the settings is nil up to the first one with an endpoint.
pub record Readable (ci : ConnectionInfo) : Type 0 where
  pub opamp : ci.opamp ≢ none
  pub own_metrics : OpAmpEmpty ci.opamp → ci.own_metrics ≢ none
  pub own_logs : OpAmpEmpty ci.opamp → TelemetryEmpty ci.own_metrics → ci.own_logs ≢ none
  pub own_traces :
      OpAmpEmpty ci.opamp
      → TelemetryEmpty ci.own_metrics
      → TelemetryEmpty ci.own_logs
      → ci.own_traces ≢ none

-- What the builder presumes of an agent: packages where it accepts them, and readable settings
-- where it has connection settings.
pub record IsDeliverable (a : Agent) : Type 0 where
  pub packages :
      has_accepts_packages a.metadata.capabilities ≡ true → a.spec.packages_available ≢ none
  pub connections : (ci : ConnectionInfo) → a.spec.connection_info ≡ some ci → Readable ci

is_some_there : {A : Type 0} (o : Option A) → is_some o ≡ true → o ≢ none
is_some_there none h e = cc h
is_some_there (some x) h e = let f : ◌≡◌ {A = Option _} none (some x) = sym e in cc f

there_is_some : {A : Type 0} (o : Option A) → o ≢ none → is_some o ≡ true
there_is_some none h = absurd (h refl)
there_is_some (some x) h = refl

telemetry_or :
    (o : Option AgentTelemetryConnectionSettings) (rest : Option Bool)
    → (is_some (telemetry_endpoint_or o rest) ≡ true)
      ↔ ((o ≢ none) × (TelemetryEmpty o → is_some rest ≡ true))
unfolding telemetry_endpoint_or
telemetry_or none rest = (λ h. cc h, λ h. absurd (h.0 refl))
telemetry_or (some s) rest = elim (Bool-cases (s.destination_endpoint == "")) [
  | inl q ↦ (
    λ h. (is_some_there (some s) refl, λ e. rw q at h),
    λ h. rw q (h.1 (s, (refl, (eq_iff s.destination_endpoint "").0 q))),
  )
  | inr n ↦ (
    λ h. (
      is_some_there (some s) refl,
      λ (s', (e, z)).
          let same : s ≡ s' = cc e in
          absurd (cc ((eq_iff s.destination_endpoint "").1 (rw same z), n)),
    ),
    λ h. rw n refl,
  )
]

opamp_or :
    (o : Option AgentOpAmpConnectionSettings) (rest : Option Bool)
    → (is_some (opamp_endpoint_or o rest) ≡ true)
      ↔ ((o ≢ none) × (OpAmpEmpty o → is_some rest ≡ true))
unfolding opamp_endpoint_or
opamp_or none rest = (λ h. cc h, λ h. absurd (h.0 refl))
opamp_or (some s) rest = elim (Bool-cases (s.destination_endpoint == "")) [
  | inl q ↦ (
    λ h. (is_some_there (some s) refl, λ e. rw q at h),
    λ h. rw q (h.1 (s, (refl, (eq_iff s.destination_endpoint "").0 q))),
  )
  | inr n ↦ (
    λ h. (
      is_some_there (some s) refl,
      λ (s', (e, z)).
          let same : s ≡ s' = cc e in
          absurd (cc ((eq_iff s.destination_endpoint "").1 (rw same z), n)),
    ),
    λ h. rw n refl,
  )
]

-- The test for connection settings returns exactly for readable ones.
has_connection_settings-Readable :
    (ci : ConnectionInfo) → (is_some (has_connection_settings (some ci)) ≡ true) ↔ Readable ci
unfolding has_connection_settings
has_connection_settings-Readable ci =
    let o = opamp_or ci.opamp _ in
    let m = telemetry_or ci.own_metrics _ in
    let l = telemetry_or ci.own_logs _ in
    let t = telemetry_or ci.own_traces (some (is_cons (elems ci.other_connections))) in
    (
      λ h. record {
        opamp = (o.0 h).0;
        own_metrics = λ a. (m.0 ((o.0 h).1 a)).0;
        own_logs = λ a b. (l.0 ((m.0 ((o.0 h).1 a)).1 b)).0;
        own_traces = λ a b c. (t.0 ((l.0 ((m.0 ((o.0 h).1 a)).1 b)).1 c)).0;
      },
      λ r. o.1 (
        r.opamp,
        λ a.
            m.1 (
              r.own_metrics a,
              λ b. l.1 (r.own_logs a b, λ c. t.1 (r.own_traces a b c, λ d. refl)),
            ),
      ),
    )

settings-Readable :
    (o : Option ConnectionInfo)
    → (is_some (has_connection_settings o) ≡ true)
      ↔ ((ci : ConnectionInfo) → o ≡ some ci → Readable ci)
unfolding has_connection_settings
settings-Readable none = (
  λ h ci e. absurd (let f : ◌≡◌ {A = Option ConnectionInfo} none (some ci) = e in cc f),
  λ h. refl,
)
settings-Readable (some c) = (
  λ h ci e.
      let same : c ≡ ci = cc e in subst Readable same ((has_connection_settings-Readable c).0 h),
  λ h. (has_connection_settings-Readable c).1 (h c refl),
)

is_some-has_new_packages :
    (a : Agent)
    → is_some (has_new_packages a) ≡ (
        if has_accepts_packages a.metadata.capabilities
        then is_some a.spec.packages_available
        else true)
unfolding has_new_packages
is_some-has_new_packages a = ground arith

and_false : (b : Bool) → (b && false) ≡ false
and_false true = refl
and_false false = refl

module _ (proto : Protocol) (l : Library) (get : Lookup) (a : Agent) where
  is_some-packages : is_some (build_packages_available proto l get a) ≡ is_some (has_new_packages a)
  unfolding build_packages_available
  is_some-packages = ground arith

  is_some-connections :
      is_some (connection_info_to_protobuf a.spec.connection_info)
      ≡ is_some (has_connection_settings a.spec.connection_info)
  unfolding connection_info_to_protobuf
  is_some-connections = ground arith

  is_some-message_with :
      (x : Option (Option PackagesAvailable)) (y : Option (Option ConnectionSettingsOffers))
      → is_some (message_with proto l get a x y) ≡ (is_some x && is_some y)
  unfolding message_with
  is_some-message_with (some x) (some y) = refl
  is_some-message_with (some x) none = refl
  is_some-message_with none y = refl

  is_some-build :
      is_some (build proto l get a)
      ≡ (is_some (has_new_packages a) && is_some (has_connection_settings a.spec.connection_info))
  unfolding build
  is_some-build =
      is_some-message_with (build_packages_available proto l get a)
        (connection_info_to_protobuf a.spec.connection_info)
      ∙ ap₂ ◌&&◌ is_some-packages is_some-connections

  -- The builder returns a message, rather than panicking, exactly for an agent that has a list of
  -- packages if it accepts packages, and whose connection settings, if it has any, are not nil up to
  -- the first one with an endpoint, in the order OpAMP, metrics, logs, traces.
  pub build-IsDeliverable : (is_some (build proto l get a) ≡ true) ↔ IsDeliverable a
  build-IsDeliverable =
      let (reads, returns) = settings-Readable a.spec.connection_info in
      (
        λ h. record {
          packages = λ c.
              is_some_there a.spec.packages_available
                (ground (arith, h, is_some-build, is_some-has_new_packages a, c));
          connections = reads (ground (arith, h, is_some-build));
        },
        λ d.
            let returned = returns d.connections in
            let listed : has_accepts_packages a.metadata.capabilities ≡ true
                → is_some a.spec.packages_available ≡ true =
              λ c. there_is_some a.spec.packages_available (d.packages c) in
            ground (arith, is_some-build, is_some-has_new_packages a, listed, returned),
      )

  build-none_of :
      (is_some (has_new_packages a) && is_some (has_connection_settings a.spec.connection_info))
        ≡ false
      → build proto l get a ≡ none
  build-none_of h = ground (arith, h, is_some-build)

-- The builder panics for an agent that accepts packages and has no list of them.
pub build-no_packages :
    (proto : Protocol) (l : Library) (get : Lookup) (a : Agent)
    → has_accepts_packages a.metadata.capabilities ≡ true
    → a.spec.packages_available ≡ none
    → build proto l get a ≡ none
build-no_packages proto l get a h n =
    build-none_of proto l get a (rw (is_some-has_new_packages a, h, n) refl)

no_opamp_panics : (ci : ConnectionInfo) → ci.opamp ≡ none → has_connection_settings (some ci) ≡ none
unfolding has_connection_settings
no_opamp_panics ci e = ground arith

-- The builder panics for every agent after a group whose connection settings name no OpAMP
-- connection has been applied to it, whatever other settings the group has.
pub build-apply_group_connection_settings :
    (proto : Protocol) (l : Library) (get : Lookup) (h : ConnectionHash) (p : Ports)
    (g : AgentGroup) (conn : AgentGroupConnectionConfig) (a : Agent)
    → g.spec.agent_connection_config ≡ some conn
    → conn.opamp_connection ≡ none
    → (apply_group_connection_settings h p g a).1 ≡ none
    → build proto l get (apply_group_connection_settings h p g a).0 ≡ none
build-apply_group_connection_settings proto l get h p g conn a e n f =
    let a' = (apply_group_connection_settings h p g a).0 in
    let (ci, left, none_) = apply_group_connection_settings-opamp h p g conn a e n f in
    let info = ap (λ (b : Agent). b.spec.connection_info) left in
    build-none_of proto l get a'
      (rw (info, no_opamp_panics ci none_) (and_false (is_some (has_new_packages a'))))
