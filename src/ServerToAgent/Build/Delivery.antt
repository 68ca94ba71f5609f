-- ===== src/ServerToAgent/Build/Delivery.antt =====
-- The configs and packages in the message for an agent.
use opampcommander.ServerToAgent.Build.{offered_when}
use opampcommander.Base.{
  String, ◌≡◌, refl, ap, ◌∙◌, Bool, true, false, ◌&&◌, Option, none, some, List, [], ◌∷◌, arith,
  if◌then◌else◌, nat_eq, string_eq, is_some, GoSlice, Assoc, elems, is_cons, lookup, Result,
}
use opampcommander.Agent.Types.{AgentMetadata, AgentConfigFile, AgentSpecPackage, Agent}
use opampcommander.Agent.Settings.{ConnectionHash}
use opampcommander.Agent.Methods.{config_entries, is_remote_config_supported, has_remote_config}
use opampcommander.Group.Types.{AgentGroup}
use opampcommander.ServerToAgent.Message.{
  ConnectionSettingsOffers, RemoteConfig, PackageAvailable, PackagesAvailable, Message,
  AgentPackage, Protocol, Library,
}
use opampcommander.ServerToAgent.Build.{
  hash_packages, build_remote_config, offer_packages, packages_with, package_names,
  build_packages_available, message, message_with, build,
}
use opampcommander.Group.Select.{get_agent_groups_for_agent}
use opampcommander.Group.Resolve.{Ports}
use opampcommander.Group.Apply.{apply_matching_agent_groups}
use opampcommander.Group.Apply.Desired.{
  winner, lookup-apply_matching_agent_groups, metadata-apply_matching_agent_groups,
}
use opampcommander.Agent.Capabilities.{has_accepts_packages}
use opampcommander.Agent.Methods.{packages_offered}
use opampcommander.ServerToAgent.Build.Packages.{listed, resolved_package, lookup-offer_packages}

abbrev pub Lookup : Type 0
Lookup = String → String → Result AgentPackage

-- The configs of a message.
abbrev pub delivered : Option RemoteConfig → Assoc AgentConfigFile
delivered none = []
delivered (some rc) = rc.config_map

-- The packages of a message.
abbrev pub packages_of : Option PackagesAvailable → Assoc PackageAvailable
packages_of none = []
packages_of (some p) = p.packages

-- The two maps that are hashed can be encoded.
pub record Encodes (l : Library) : Type 0 where
  pub configs : (m : Assoc AgentConfigFile) → is_some (l.marshal_configs m) ≡ true
  pub packages : (m : Assoc PackageAvailable) → is_some (l.marshal_packages m) ≡ true

nothing_offered :
    (packages : Option PackagesAvailable)
    → ◌≡◌ {A = Option (Option PackagesAvailable)} (some none) (some packages)
    → packages_of packages ≡ []
nothing_offered none e = refl
nothing_offered (some x) e = absurd (cc e)

by_acceptance :
    (accepts named : Bool) (ps : Assoc PackageAvailable) (k : String) (o : Option PackageAvailable)
    → lookup k ps ≡ (if named then o else none)
    → lookup k (if accepts then ps else []) ≡ (if accepts && named then o else none)
unfolding lookup
by_acceptance true named ps k o e = e
by_acceptance false named ps k o e = refl

module _ (proto : Protocol) (l : Library) (get : Lookup) (a : Agent) (m : Message) where
  message_with-some :
      (x : Option (Option PackagesAvailable)) (y : Option (Option ConnectionSettingsOffers))
      → message_with proto l get a x y ≡ some m
      → (packages : Option PackagesAvailable) × (offers : Option ConnectionSettingsOffers) × (x
          ≡ some packages)
        × (m ≡ message proto l get a packages offers)
  unfolding message_with
  message_with-some (some x) (some y) e = (x, y, refl, cc)
  message_with-some (some x) none e = cc
  message_with-some none y e = cc

  -- A message that is returned is made of the agent, its packages and its offers.
  pub build-message :
      build proto l get a ≡ some m
      → (packages : Option PackagesAvailable) × (offers : Option ConnectionSettingsOffers)
        × (build_packages_available proto l get a ≡ some packages)
        × (m ≡ message proto l get a packages offers)
  unfolding build
  build-message e = message_with-some _ _ e

  delivered-build_remote_config :
      Encodes l
      → delivered (build_remote_config l a)
        ≡ (if is_remote_config_supported a then config_entries a.spec.remote_config else [])
  unfolding build_remote_config has_remote_config
  delivered-build_remote_config enc =
      ground (arith, enc.configs (config_entries a.spec.remote_config))

  -- An agent that accepts remote configs is sent the configs of its spec, all of them and no
  -- other; one that does not is sent none. The maps that are hashed can be encoded.
  pub delivered-build :
      Encodes l
      → build proto l get a ≡ some m
      → delivered m.remote_config
        ≡ (if is_remote_config_supported a then config_entries a.spec.remote_config else [])
  unfolding message
  delivered-build enc e =
      let (packages, offers, q, made) = build-message e in
      ap (λ (x : Message). delivered x.remote_config) made ∙ delivered-build_remote_config enc

  packages-packages_with :
      (ps : Assoc PackageAvailable)
      → Encodes l
      → packages_of (packages_with proto l get ps (hash_packages l ps)) ≡ ps
  unfolding packages_with hash_packages
  packages-packages_with ps enc = ground (arith, enc.packages ps)

  -- The two cases in which there is something to offer, or nothing.
  packages_by_case :
      (accepts : Bool) (s : Option AgentSpecPackage) (packages : Option PackagesAvailable)
      → Encodes l
      → let ps = offer_packages proto l get a.metadata.namespace (package_names s) [] in
        offered_when
            (packages_with proto l get ps (hash_packages l ps))
            (if accepts then packages_offered s else some false)
          ≡ some packages
        → packages_of packages ≡ (if accepts then ps else [])
  unfolding offer_packages package_names packages_offered offered_when
  packages_by_case false s packages enc e = nothing_offered packages e
  packages_by_case true none packages enc e = cc
  packages_by_case true (some s) packages enc e = by_names s.packages e
    where
      by_names :
          (names : GoSlice String)
          → let ps = offer_packages proto l get a.metadata.namespace (elems names) [] in
            offered_when
                (packages_with proto l get ps (hash_packages l ps))
                (some (is_cons (elems names)))
              ≡ some packages
            → packages_of packages ≡ ps
      by_names none q = nothing_offered packages q
      by_names (some []) q = nothing_offered packages q
      by_names (some (n ∷ ns)) q =
          let ps = offer_packages proto l get a.metadata.namespace (n ∷ ns) [] in
          let q' : packages_with proto l get ps (hash_packages l ps) ≡ packages = cc in
          rw (← q') (packages-packages_with ps enc)

  packages-build_packages_available :
      (packages : Option PackagesAvailable)
      → Encodes l
      → build_packages_available proto l get a ≡ some packages
      → packages_of packages ≡ (
          if has_accepts_packages a.metadata.capabilities
          then offer_packages proto l get a.metadata.namespace
              (package_names a.spec.packages_available)
              []
          else [])
  unfolding build_packages_available
  packages-build_packages_available packages enc e =
      packages_by_case (has_accepts_packages a.metadata.capabilities) a.spec.packages_available
        packages enc e

  -- An agent that accepts packages is offered those of its spec that resolve, each as it resolves,
  -- and no other; one that does not is offered none. The maps that are hashed can be encoded.
  pub lookup-packages-build :
      (k : String)
      → Encodes l
      → build proto l get a ≡ some m
      → lookup k (packages_of m.packages_available) ≡ (
          if has_accepts_packages a.metadata.capabilities
            && listed k (package_names a.spec.packages_available)
          then resolved_package proto l get a.metadata.namespace k
          else none)
  unfolding message
  lookup-packages-build k enc e =
      let (packages, offers, q, made) = build-message e in
      let names = package_names a.spec.packages_available in
      let ps = offer_packages proto l get a.metadata.namespace names [] in
      ap (λ (x : Message). lookup k (packages_of x.packages_available)) made
      ∙ (ap (lookup k) (packages-build_packages_available packages enc q)
          ∙ by_acceptance (has_accepts_packages a.metadata.capabilities) (listed k names) ps k _
              (lookup-offer_packages proto l get a.metadata.namespace names k))

supported_by_metadata :
    (a b : Agent)
    → a.metadata ≡ b.metadata
    → is_remote_config_supported a ≡ is_remote_config_supported b
unfolding is_remote_config_supported
supported_by_metadata a b e =
    ap (λ (x : AgentMetadata). is_remote_config_supported (record a { metadata = x })) e

lookup_if :
    (b : Bool) (m : Assoc AgentConfigFile) (k : String)
    → lookup k (if b then m else []) ≡ (if b then lookup k m else none)
unfolding lookup
lookup_if true m k = refl
lookup_if false m k = refl

module _ (proto : Protocol) (l : Library) (get : Lookup) (h : ConnectionHash) (p : Ports) where
  -- From the groups to the agent: after the matching groups have been applied, the message for an
  -- agent that accepts remote configs has under each name the file of the last governing group
  -- whose configs resolve and that declares the name, and no other name; an agent that does not
  -- accept them is sent none. The maps that are hashed can be encoded.
  pub delivered-apply_matching_agent_groups :
      (gs : List AgentGroup) (a : Agent) (m : Message) (k : String)
      → Encodes l
      → build proto l get (apply_matching_agent_groups h p gs a).0 ≡ some m
      → lookup k (delivered m.remote_config) ≡ (
          if is_remote_config_supported a
          then winner p (get_agent_groups_for_agent gs a) k
          else none)
  delivered-apply_matching_agent_groups gs a m k enc e =
      let a' = (apply_matching_agent_groups h p gs a).0 in
      ap (lookup k) (delivered-build proto l get a' m enc e)
      ∙ (lookup_if (is_remote_config_supported a') (config_entries a'.spec.remote_config) k
          ∙ (rw (
            supported_by_metadata a' a (metadata-apply_matching_agent_groups h p gs a).0,
            lookup-apply_matching_agent_groups h p gs a k,
          )))
