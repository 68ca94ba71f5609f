-- ===== src/Group/Resolve.antt =====
-- service/agentgroup.go: the remote configs that a group declares.
pub mod Completeness
use Prim.Native.String.{◌++◌ as str_append}
use opampcommander.Base.{
  ℕ, String, Bool, true, false, ◌&&◌, Option, none, some, List, [], ◌∷◌, if◌then◌else◌, ◌==◌,
  nat_eq, string_eq, Assoc, elems, lookup, insert, invalid_remote_config,
  duplicate_remote_config_name, Result, ok, err, ◌>>=◌,
}
use opampcommander.Agent.Types.{AgentConfigFile}
use opampcommander.Agent.Settings.{AgentCertificate}
use opampcommander.Group.Types.{
  AgentRemoteConfigSpec, AgentGroupAgentRemoteConfig, AgentGroup, AgentRemoteConfig,
}

-- What the service asks of the ports of remote configs and certificates, by namespace and name.
pub record Ports : Type 0 where
  pub get_agent_remote_config : String → String → Result AgentRemoteConfig
  pub get_certificate : String → String → Result AgentCertificate

unfoldable pub bytes_equal : List ℕ → List ℕ → Bool
bytes_equal [] [] = true
bytes_equal (x ∷ xs) (y ∷ ys) = if x == y then bytes_equal xs ys else false
bytes_equal _ _ = false

-- bytes.Equal takes nil for empty.
unfoldable pub same_config_file : AgentConfigFile → AgentConfigFile → Bool
unfolding bytes_equal
same_config_file a b = a.content_type == b.content_type && bytes_equal (elems a.body) (elems b.body)

-- "{AgentGroupName}/{AgentRemoteConfigName}"
unfoldable pub prefixed_name : String → String → String
prefixed_name group name = str_append group (str_append "/" name)

resolved : Result AgentRemoteConfig → Result (AgentConfigFile × String)
resolved (err e) = err e
resolved (ok arc) =
    ok (record { body = arc.spec.value; content_type = arc.spec.content_type }, arc.name)

inline : String → Option AgentRemoteConfigSpec → Option String → Result (AgentConfigFile × String)
unfolding prefixed_name
inline group (some spec) (some name) =
    ok (record { body = spec.value; content_type = spec.content_type }, prefixed_name group name)
inline group _ _ = err (invalid_remote_config group)

dispatch :
    Ports
    → String
    → String
    → AgentGroupAgentRemoteConfig
    → Option String
    → Result (AgentConfigFile × String)
unfolding resolved inline
dispatch p namespace group cfg (some ref) = resolved (p.get_agent_remote_config namespace ref)
dispatch p namespace group cfg none =
    inline group cfg.agent_remote_config_spec cfg.agent_remote_config_name

unfoldable pub resolve_remote_config :
    Ports → String → String → AgentGroupAgentRemoteConfig → Result (AgentConfigFile × String)
unfolding dispatch
resolve_remote_config p namespace group cfg =
    dispatch p namespace group cfg cfg.agent_remote_config_ref

-- One entry of the loop, with what `out` holds under its name.
unfoldable pub add_resolved :
    Assoc AgentConfigFile
    → AgentConfigFile
    → String
    → Option AgentConfigFile
    → Result (Assoc AgentConfigFile)
unfolding same_config_file
add_resolved out file name none = ok (insert name file out)
add_resolved out file name (some existing) =
    if same_config_file existing file then ok out else err (duplicate_remote_config_name name)

unfoldable pub collect_from :
    (AgentGroupAgentRemoteConfig → Result (AgentConfigFile × String))
    → List AgentGroupAgentRemoteConfig
    → Assoc AgentConfigFile
    → Result (Assoc AgentConfigFile)
collect_from resolve [] out = ok out
collect_from resolve (cfg ∷ cfgs) out = resolve cfg >>= λ r.
    add_resolved out r.0 r.1 (lookup r.1 out) >>= λ next. collect_from resolve cfgs next

unfoldable pub collect_group_remote_configs : Ports → AgentGroup → Result (Assoc AgentConfigFile)
unfolding collect_from
collect_group_remote_configs p g =
    collect_from (resolve_remote_config p g.metadata.namespace g.metadata.name)
      (elems g.spec.agent_remote_configs) []
