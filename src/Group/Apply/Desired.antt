-- ===== src/Group/Apply/Desired.antt =====
-- The state that `ApplyMatchingAgentGroupsToAgent` leaves, without its loops.
use opampcommander.Agent.Methods.{config_entries}
use opampcommander.Group.Apply.{stop_on}
use opampcommander.Agent.Types.{AgentConfigFile, Agent}
use opampcommander.Agent.Settings.{ConnectionInfo, ConnectionHash}
use opampcommander.Group.Types.{AgentGroup}
use opampcommander.Base.{
  String, ◌≡◌, refl, sym, ap, ◌∙◌, Option, none, some, List, [], ◌∷◌, nat_eq, string_eq, Assoc,
  lookup, Error, Result, ok, err,
}
use opampcommander.Base.MapLaws.{or_else-none, IsMap, or_else, lookup-copy_into}
use opampcommander.Group.Select.{governs, get_agent_groups_for_agent}
use opampcommander.Group.Resolve.{Ports, collect_group_remote_configs}
use opampcommander.Group.Resolve.Completeness.{collect_group_remote_configs-IsMap}
use opampcommander.Group.Connect.Effect.{
  offered, info_after, failure, with_info, apply_group_connection_settings-effect,
}
use opampcommander.Group.Apply.{
  contribute, desired_from, remote_config_of, connect_all, apply_matching_agent_groups,
}

abbrev stop_or {ℓ} : {A : Type ℓ} → Option Error → A → A → A
stop_or none rest here = rest
stop_or (some e) rest here = here

abbrev keep_or : Option Error → Option Error → Option Error
keep_or none rest = rest
keep_or (some e) rest = some e

-- Which groups govern an agent depends on its metadata alone.
governs_by_metadata :
    (g : AgentGroup) (a b : Agent) → a.metadata ≡ b.metadata → governs g a ≡ governs g b
unfolding governs
governs_by_metadata g a b e = λ i. governs g (record a { metadata = e i })

get_agent_groups_for_agent_by_metadata :
    (gs : List AgentGroup) (a b : Agent)
    → a.metadata ≡ b.metadata
    → get_agent_groups_for_agent gs a ≡ get_agent_groups_for_agent gs b
unfolding get_agent_groups_for_agent
get_agent_groups_for_agent_by_metadata [] a b e = refl
get_agent_groups_for_agent_by_metadata (g ∷ gs) a b e =
    rw (get_agent_groups_for_agent_by_metadata gs a b e, governs_by_metadata g a b e)

module _ (h : ConnectionHash) (p : Ports) where
  info_all : List AgentGroup → Option ConnectionInfo → Option ConnectionInfo
  info_all [] c = c
  info_all (g ∷ gs) c =
      let now = info_after (offered h p g) c in
      let rest = info_all gs now in stop_or (failure (offered h p g)) rest now

  failure_all : List AgentGroup → Option Error
  failure_all [] = none
  failure_all (g ∷ gs) = keep_or (failure (offered h p g)) (failure_all gs)

  split_offer :
      (o : Option (Result ConnectionInfo)) (gs : List AgentGroup) (a : Agent)
      (c : Option ConnectionInfo)
      → stop_on
          (failure o)
          (with_info (info_all gs (info_after o c)) a, failure_all gs)
          (with_info (info_after o c) a)
        ≡ (
          with_info (stop_or (failure o) (info_all gs (info_after o c)) (info_after o c)) a,
          keep_or (failure o) (failure_all gs),
        )
  unfolding stop_on
  split_offer none gs a c = refl
  split_offer (some (ok ci)) gs a c = refl
  split_offer (some (err e)) gs a c = refl

  connect_all-effect :
      (gs : List AgentGroup) (a : Agent)
      → connect_all h p gs a ≡ (with_info (info_all gs a.spec.connection_info) a, failure_all gs)
  unfolding connect_all info_all failure_all
  connect_all-effect [] a = refl
  connect_all-effect (g ∷ gs) a =
      ap (λ (r : Agent × Option Error). stop_on r.1 (connect_all h p gs r.0) r.0)
        (apply_group_connection_settings-effect h p g a)
      ∙ (let b = with_info (info_after (offered h p g) a.spec.connection_info) a in
          ap (λ (rest : Agent × Option Error). stop_on (failure (offered h p g)) rest b)
            (connect_all-effect gs b)
          ∙ split_offer (offered h p g) gs a a.spec.connection_info)

  repeat_offer :
      (o : Option (Result ConnectionInfo)) (gs : List AgentGroup) (c : Option ConnectionInfo)
      → info_all gs (info_all gs (info_after o c)) ≡ info_all gs (info_after o c)
      → let f = λ (x : Option ConnectionInfo).
        stop_or (failure o) (info_all gs (info_after o x)) (info_after o x) in
        f (f c) ≡ f c
  repeat_offer none gs c ih = ih
  repeat_offer (some (ok ci)) gs c ih = refl
  repeat_offer (some (err e)) gs c ih = refl

  info_all_idem :
      (gs : List AgentGroup) (c : Option ConnectionInfo)
      → info_all gs (info_all gs c) ≡ info_all gs c
  unfolding info_all
  info_all_idem [] c = refl
  info_all_idem (g ∷ gs) c =
      repeat_offer (offered h p g) gs c (info_all_idem gs (info_after (offered h p g) c))

  apply_matching_agent_groups-effect :
      (gs : List AgentGroup) (a : Agent)
      → apply_matching_agent_groups h p gs a ≡ (
          let groups = get_agent_groups_for_agent gs a in
          (
            record a {
              spec = record a.spec {
                remote_config = remote_config_of (desired_from p groups []);
                connection_info = info_all groups a.spec.connection_info;
              };
            },
            failure_all groups,
          ))
  unfolding apply_matching_agent_groups
  apply_matching_agent_groups-effect gs a = connect_all-effect (get_agent_groups_for_agent gs a) _

module _ (h : ConnectionHash) (p : Ports) (gs : List AgentGroup) (a : Agent) where
  -- Applying the groups again to the agent that they left, with nothing changed meanwhile, changes
  -- nothing and ends the same way.
  pub apply_matching_agent_groups_idem :
      apply_matching_agent_groups h p gs (apply_matching_agent_groups h p gs a).0
      ≡ apply_matching_agent_groups h p gs a
  apply_matching_agent_groups_idem =
      let groups = get_agent_groups_for_agent gs a in
      let left : Agent = record a {
        spec = record a.spec {
          remote_config = remote_config_of (desired_from p groups []);
          connection_info = info_all h p groups a.spec.connection_info;
        };
      } in
      let once = apply_matching_agent_groups-effect h p gs a in
      ap (λ (r : Agent × Option Error). apply_matching_agent_groups h p gs r.0) once
      ∙ (apply_matching_agent_groups-effect h p gs left
          ∙ (rw
              (
                get_agent_groups_for_agent_by_metadata gs left a refl,
                info_all_idem h p groups a.spec.connection_info,
              )
              (sym once)))

-- The remote config that the groups give an agent does not depend on what stood in its spec: two
-- agents with the same metadata get the same one, whatever configs earlier groups left behind.
pub apply_matching_agent_groups-remote_config :
    (h : ConnectionHash) (p : Ports) (gs : List AgentGroup) (a b : Agent)
    → a.metadata ≡ b.metadata
    → (apply_matching_agent_groups h p gs a).0.spec.remote_config
      ≡ (apply_matching_agent_groups h p gs b).0.spec.remote_config
apply_matching_agent_groups-remote_config h p gs a b e = rw (
  apply_matching_agent_groups-effect h p gs a,
  apply_matching_agent_groups-effect h p gs b,
  get_agent_groups_for_agent_by_metadata gs a b e,
)

abbrev file_of : Result (Assoc AgentConfigFile) → String → Option AgentConfigFile
file_of (err e) k = none
file_of (ok configs) k = lookup k configs

-- The file that the last of the groups whose configs resolve declares under a name.
unfoldable pub winner : Ports → List AgentGroup → String → Option AgentConfigFile
winner p [] k = none
winner p (g ∷ gs) k = or_else (winner p gs k) (file_of (collect_group_remote_configs p g) k)

or_else_assoc : (x y z : Option AgentConfigFile) → or_else x (or_else y z) ≡ or_else (or_else x y) z
or_else_assoc none y z = refl
or_else_assoc (some x) y z = refl

lookup-contribute :
    (k : String) (desired : Assoc AgentConfigFile) (r : Result (Assoc AgentConfigFile))
    → ((configs : Assoc AgentConfigFile) → r ≡ ok configs → IsMap configs)
    → lookup k (contribute desired r) ≡ or_else (file_of r k) (lookup k desired)
unfolding contribute
lookup-contribute k desired (err e) m = refl
lookup-contribute k desired (ok configs) m = lookup-copy_into k desired configs (m configs refl)

-- Under each name the desired state has the file of the last governing group whose configs resolve
-- and that declares the name; a group that does not resolve neither contributes nor blocks.
pub lookup-desired_from :
    (p : Ports) (gs : List AgentGroup) (desired : Assoc AgentConfigFile) (k : String)
    → lookup k (desired_from p gs desired) ≡ or_else (winner p gs k) (lookup k desired)
unfolding desired_from winner
lookup-desired_from p [] desired k = refl
lookup-desired_from p (g ∷ gs) desired k =
    let r = collect_group_remote_configs p g in
    lookup-desired_from p gs (contribute desired r) k
    ∙ (rw (lookup-contribute k desired r (collect_group_remote_configs-IsMap p g))
        (or_else_assoc (winner p gs k) (file_of r k) (lookup k desired)))

entries_of_remote_config :
    (a : Agent) (configs : Assoc AgentConfigFile)
    → a.spec.remote_config ≡ remote_config_of configs
    → config_entries a.spec.remote_config ≡ configs
unfolding config_entries remote_config_of
entries_of_remote_config a [] e = rw e
entries_of_remote_config a (c ∷ configs) e = rw e

-- What the groups leave in the agent's spec has, under each name, the file of the last governing
-- group whose configs resolve and that declares the name, and no other name.
pub lookup-apply_matching_agent_groups :
    (h : ConnectionHash) (p : Ports) (gs : List AgentGroup) (a : Agent) (k : String)
    → lookup k (config_entries (apply_matching_agent_groups h p gs a).0.spec.remote_config)
      ≡ winner p (get_agent_groups_for_agent gs a) k
unfolding lookup
lookup-apply_matching_agent_groups h p gs a k =
    let groups = get_agent_groups_for_agent gs a in
    let applied = (apply_matching_agent_groups h p gs a).0 in
    let e =
      ap (λ (r : Agent × Option Error). r.0.spec.remote_config)
        (apply_matching_agent_groups-effect h p gs a) in
    ap (lookup k) (entries_of_remote_config applied (desired_from p groups []) e)
    ∙ (lookup-desired_from p groups [] k ∙ or_else-none (winner p groups k))

-- The groups leave the agent's metadata and status as they are.
pub metadata-apply_matching_agent_groups :
    (h : ConnectionHash) (p : Ports) (gs : List AgentGroup) (a : Agent)
    → ((apply_matching_agent_groups h p gs a).0.metadata ≡ a.metadata)
      × ((apply_matching_agent_groups h p gs a).0.status ≡ a.status)
metadata-apply_matching_agent_groups h p gs a =
    let e = apply_matching_agent_groups-effect h p gs a in
    (
      ap (λ (r : Agent × Option Error). r.0.metadata) e,
      ap (λ (r : Agent × Option Error). r.0.status) e,
    )

pub packages_available-apply_matching_agent_groups :
    (h : ConnectionHash) (p : Ports) (gs : List AgentGroup) (a : Agent)
    → (apply_matching_agent_groups h p gs a).0.spec.packages_available ≡ a.spec.packages_available
packages_available-apply_matching_agent_groups h p gs a =
    ap (λ (r : Agent × Option Error). r.0.spec.packages_available)
      (apply_matching_agent_groups-effect h p gs a)
