-- ===== src/ServerToAgent/Build.antt =====
-- `ServerToAgentBuilder.Build` and the functions that it calls. Logging is left out.
pub mod Packages
pub mod Delivery
pub mod Restart
pub mod Panics
use opampcommander.Base.{
  ℕ, bit_or, String, Bool, true, ◌||◌, Option, none, some, List, [], ◌∷◌, ◌++◌, map, if◌then◌else◌,
  ◌==◌, nat_eq, string_eq, GoSlice, Assoc, GoMap, elems, is_cons, insert, Result, ok, err,
}
use opampcommander.Agent.Types.{AgentConfigFile, AgentSpecPackage, Agent}
use opampcommander.Agent.Settings.{
  AgentCertificate, AgentOpAmpConnectionSettings, AgentTelemetryConnectionSettings,
  AgentOtherConnectionSettings, ConnectionInfo, opamp_has_endpoint, telemetry_has_endpoint,
  certificate_is_empty, has_connection_settings, other_connections,
}
use opampcommander.Agent.Methods.{
  config_entries, is_complete, has_new_instance_uid, new_instance_uid_bytes, should_be_restarted,
  has_remote_config, has_new_packages,
}
use opampcommander.ServerToAgent.Message.{
  Header, TlsCertificate, ConnectionSettings, ConnectionSettingsOffers, RemoteConfig,
  PackageAvailable, PackagesAvailable, Message, AgentPackage, Protocol, Library,
}

abbrev hash_with : (List ℕ → List ℕ) → Option (List ℕ) → Option (List ℕ)
hash_with fnv none = none
hash_with fnv (some buf) = some (fnv buf)

-- vo.NewHashFromAny, for the two maps that the builder hashes.
unfoldable pub hash_configs : Library → Assoc AgentConfigFile → Option (List ℕ)
hash_configs l m = hash_with l.fnv64 (l.marshal_configs m)

unfoldable pub hash_packages : Library → Assoc PackageAvailable → Option (List ℕ)
hash_packages l m = hash_with l.fnv64 (l.marshal_packages m)

flatten_headers : Assoc (GoSlice String) → List Header
flatten_headers [] = []
flatten_headers ((key, values) ∷ m) =
    map (λ value. record { key = key; value = value }) (elems values) ++ flatten_headers m

unfoldable pub headers_to_protobuf : GoMap (GoSlice String) → Option (List Header)
unfolding flatten_headers
headers_to_protobuf headers =
    if is_cons (elems headers) then some (flatten_headers (elems headers)) else none

tls : Option AgentCertificate → Option TlsCertificate
tls none = none
tls (some c) = some (record { cert = c.cert; private_key = c.private_key; ca_cert = c.ca_cert })

unfoldable pub agent_certificate_to_protobuf : Option AgentCertificate → Option TlsCertificate
unfolding tls certificate_is_empty
agent_certificate_to_protobuf cert = if certificate_is_empty cert then none else tls cert

unfoldable pub settings_to_protobuf :
    String → GoMap (GoSlice String) → Option AgentCertificate → ConnectionSettings
unfolding headers_to_protobuf agent_certificate_to_protobuf
settings_to_protobuf endpoint headers certificate = record {
  destination_endpoint = endpoint;
  headers = headers_to_protobuf headers;
  certificate = agent_certificate_to_protobuf certificate;
}

-- The offer is set where the settings have an endpoint.
unfoldable pub offer_opamp : Option AgentOpAmpConnectionSettings → Option ConnectionSettings
unfolding settings_to_protobuf
offer_opamp none = none
offer_opamp (some s) =
    if opamp_has_endpoint (some s)
    then some (settings_to_protobuf s.destination_endpoint s.headers s.certificate)
    else none

unfoldable pub offer_telemetry : Option AgentTelemetryConnectionSettings → Option ConnectionSettings
unfolding settings_to_protobuf
offer_telemetry none = none
offer_telemetry (some s) =
    if telemetry_has_endpoint (some s)
    then some (settings_to_protobuf s.destination_endpoint s.headers s.certificate)
    else none

offer_entries : Assoc AgentOtherConnectionSettings → Assoc ConnectionSettings
offer_entries [] = []
offer_entries ((name, s) ∷ m) =
    (name, settings_to_protobuf s.destination_endpoint s.headers s.certificate) ∷ offer_entries m

unfoldable pub offer_others : Assoc AgentOtherConnectionSettings → GoMap ConnectionSettings
unfolding offer_entries
offer_others m = if is_cons m then some (offer_entries m) else none

unfoldable pub offers_of : ConnectionInfo → ConnectionSettingsOffers
unfolding offer_opamp offer_telemetry offer_others other_connections
offers_of ci = record {
  hash = ci.hash;
  opamp = offer_opamp ci.opamp;
  own_metrics = offer_telemetry ci.own_metrics;
  own_logs = offer_telemetry ci.own_logs;
  own_traces = offer_telemetry ci.own_traces;
  other_connections = offer_others (other_connections ci);
}

offers_when : Bool → Option ConnectionInfo → Option ConnectionSettingsOffers
offers_when true (some ci) = some (offers_of ci)
offers_when _ _ = none

-- `none` outside is the panic of `HasConnectionSettings`; its second call has the same answer.
unfoldable pub connection_info_to_protobuf :
    Option ConnectionInfo → Option (Option ConnectionSettingsOffers)
unfolding offers_when has_connection_settings
connection_info_to_protobuf info = elim (has_connection_settings info) [
  | none ↦ none
  | some b ↦ some (offers_when b info)
]

remote_config_with : Assoc AgentConfigFile → Option (List ℕ) → Option RemoteConfig
remote_config_with configs none = none
remote_config_with configs (some hash) = some (record { config_map = configs; config_hash = hash })

unfoldable pub build_remote_config : Library → Agent → Option RemoteConfig
unfolding has_remote_config remote_config_with hash_configs
build_remote_config l a =
    let configs = config_entries a.spec.remote_config in
    if has_remote_config a then remote_config_with configs (hash_configs l configs) else none

offered_when : Option PackagesAvailable → Option Bool → Option (Option PackagesAvailable)
offered_when ps none = none
offered_when ps (some b) = some (if b then ps else none)

-- The names that an agent's spec lists.
unfoldable pub package_names : Option AgentSpecPackage → List String
package_names none = []
package_names (some p) = elems p.packages

module _ (proto : Protocol) (l : Library)
    (get_agent_package : String → String → Result AgentPackage) where
  unfoldable pub package_type : String → ℕ
  package_type spec_type =
      let t = l.lower_trim spec_type in
      if t == "" || t == "toplevel"
      then proto.top_level
      else if t == "addon"
      then proto.addon
      else proto.top_level

  package_headers : Assoc String → List Header
  package_headers [] = []
  package_headers ((key, value) ∷ m) = record { key = key; value = value } ∷ package_headers m

  available : AgentPackage → PackageAvailable
  unfolding package_type package_headers
  available p = record {
    type = package_type p.package_type;
    version = p.version;
    download_url = p.download_url;
    content_hash = p.content_hash;
    signature = p.signature;
    headers = package_headers (elems p.headers);
    hash = p.hash;
  }

  to_available : Result AgentPackage → Result PackageAvailable
  unfolding available
  to_available (ok p) = ok (available p)
  to_available (err e) = err e

  unfoldable pub resolve_available_package : String → String → Result PackageAvailable
  unfolding to_available
  resolve_available_package namespace name = to_available (get_agent_package namespace name)

  offer_package : String → Result PackageAvailable → Assoc PackageAvailable → Assoc PackageAvailable
  offer_package name (ok pkg) out = insert name pkg out
  offer_package name (err e) out = out

  -- A package that does not resolve is left out, and the loop goes on.
  unfoldable pub offer_packages :
      String → List String → Assoc PackageAvailable → Assoc PackageAvailable
  unfolding offer_package
  offer_packages namespace [] out = out
  offer_packages namespace (name ∷ names) out =
      offer_packages namespace names
        (offer_package name (resolve_available_package namespace name) out)

  packages_with : Assoc PackageAvailable → Option (List ℕ) → Option PackagesAvailable
  packages_with packages none = none
  packages_with packages (some hash) =
      some (record { packages = packages; all_packages_hash = hash })

  offered_packages : Agent → Option PackagesAvailable
  unfolding offer_packages packages_with hash_packages package_names
  offered_packages a =
      let packages =
        offer_packages a.metadata.namespace (package_names a.spec.packages_available) [] in
      packages_with packages (hash_packages l packages)

  -- `none` outside is the panic of `HasNewPackages`.
  unfoldable pub build_packages_available : Agent → Option (Option PackagesAvailable)
  unfolding has_new_packages offered_packages offered_when
  build_packages_available a = offered_when (offered_packages a) (has_new_packages a)

  unfoldable pub server_capabilities : ℕ
  server_capabilities =
      bit_or
        (bit_or
          (bit_or
            (bit_or (bit_or proto.accepts_status proto.offers_remote_config)
              proto.accepts_effective_config)
            proto.offers_connection_settings)
          proto.offers_packages)
        proto.accepts_packages_status

  unfoldable pub message :
      Agent → Option PackagesAvailable → Option ConnectionSettingsOffers → Message
  unfolding is_complete should_be_restarted new_instance_uid_bytes has_new_instance_uid
      build_remote_config server_capabilities
  message a packages offers = record {
    instance_uid = a.metadata.instance_uid;
    remote_config = build_remote_config l a;
    connection_settings = offers;
    packages_available = packages;
    flags = if is_complete a.metadata then 0 else proto.report_full_state;
    capabilities = server_capabilities;
    new_instance_uid = if has_new_instance_uid a then new_instance_uid_bytes a else none;
    command = if should_be_restarted a then some proto.restart else none;
  }

  message_with :
      Agent
      → Option (Option PackagesAvailable)
      → Option (Option ConnectionSettingsOffers)
      → Option Message
  unfolding message
  message_with a (some packages) (some offers) = some (message a packages offers)
  message_with a _ _ = none

  -- `none` is a panic.
  unfoldable pub build : Agent → Option Message
  unfolding build_packages_available connection_info_to_protobuf message_with
  build a =
      message_with a (build_packages_available a)
        (connection_info_to_protobuf a.spec.connection_info)
