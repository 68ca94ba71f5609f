-- ===== src/Store/Agents.antt =====
-- agent.go and common.go: the repository of agents on the generic store. The clock is a parameter
-- of the operations that read it.
use opampcommander.Base.{
  ltb, err, ok, query_too_long, ℕ, ◌+◌, ◌%◌, String, Bool, true, false, not, ◌||◌, Option, none,
  some, List, [], ◌∷◌, if◌then◌else◌, ◌==◌, nat_eq, string_eq, Assoc, GoMap, elems, get_string,
  Error, Result,
}
use opampcommander.Agent.Types.{Uuid, Agent}
use opampcommander.Agent.Health.{Time}
use opampcommander.Agent.Methods.{is_connected_at, default_connection_staleness}
use opampcommander.Agent.Clone.{clone}
use opampcommander.Group.Types.{AgentSelector}
use opampcommander.Store.Ops.{
  Token, Store, Kind, ListOptions, ListResponse, u64_mod, new_store, get, cas_put, delete, list,
  snapshot,
}

abbrev pub AgentStore : Type 0
AgentStore = Store Uuid Agent

-- The kind of `newStore(Agent.Clone, nil)`: agents are never soft-deleted.
abbrev pub agent_kind : Kind Agent
agent_kind = record { clone = clone; deleted_at = none }

unfoldable pub new_agent_repository : AgentStore
unfolding new_store
new_agent_repository = new_store

unfoldable pub resource_version : Agent → ℕ
resource_version a = a.metadata.resource_version

unfoldable pub with_resource_version : ℕ → Agent → Agent
with_resource_version n a = record a { metadata = record a.metadata { resource_version = n } }

unfoldable pub get_agent : Uuid → AgentStore → Result Agent
unfolding get
get_agent uid s = get agent_kind s uid false

-- The version is written back to the caller's agent only when the write took place.
unfoldable pub written_back :
    Agent → ℕ → AgentStore × Option Error → AgentStore × (Agent × Option Error)
unfolding with_resource_version
written_back a next (s, none) = (s, (with_resource_version next a, none))
written_back a next (s, some e) = (s, (a, some e))

unfoldable pub next_version : ℕ → ℕ
next_version expected = (expected + 1) % u64_mod

-- The store, the caller's agent and the error.
unfoldable pub put_agent : Agent → AgentStore → AgentStore × (Agent × Option Error)
unfolding written_back cas_put clone with_resource_version next_version resource_version
put_agent a s =
    let expected = a.metadata.resource_version in
    let next = next_version expected in
    let to_store = with_resource_version next (clone a) in
    written_back a next
      (cas_put agent_kind a.metadata.instance_uid to_store expected resource_version s)

unfoldable pub delete_agent : Uuid → AgentStore → AgentStore × Option Error
unfolding delete
delete_agent uid s = delete uid s

-- matchesAttributes, and each loop of matchesSelector: a missing key counts as the empty string.
unfoldable pub matches_attributes : GoMap String → Assoc String → Bool
unfolding get_string
matches_attributes stored [] = true
matches_attributes stored ((k, v) ∷ sel) =
    if get_string stored k == v then matches_attributes stored sel else false

unfoldable pub matches_selector : Agent → AgentSelector → Bool
unfolding matches_attributes
matches_selector a sel =
    if matches_attributes a.metadata.description.identifying_attributes
      (elems sel.identifying_attributes)
    then matches_attributes a.metadata.description.non_identifying_attributes
        (elems sel.non_identifying_attributes)
    else false

unfoldable pub connected_if : Bool → Time → Agent → Bool
unfolding is_connected_at
connected_if connected_only now a =
    not connected_only || is_connected_at a now default_connection_staleness

unfoldable pub listed_in : String → ListOptions → Time → Agent → Bool
unfolding matches_attributes connected_if
listed_in namespace options now a =
    if not (a.metadata.namespace == namespace)
    then false
    else if not (
        matches_attributes a.metadata.description.identifying_attributes
          (elems options.identifying_attributes))
    then false
    else if not (
        matches_attributes a.metadata.description.non_identifying_attributes
          (elems options.non_identifying_attributes))
    then false
    else connected_if options.connected_only now a

unfoldable pub list_agents : String → ListOptions → Time → AgentStore → Result (ListResponse Agent)
unfolding list listed_in
list_agents namespace options now s = list agent_kind options (listed_in namespace options now) s

unfoldable pub list_agents_by_selector :
    AgentSelector → ListOptions → Time → AgentStore → Result (ListResponse Agent)
unfolding list matches_selector connected_if
list_agents_by_selector sel options now s =
    list agent_kind options
      (λ a.
        if not (matches_selector a sel) then false else connected_if options.connected_only now a)
      s

unfoldable pub agents_matching_selector : AgentSelector → AgentStore → List Agent
unfolding snapshot matches_selector
agents_matching_selector sel s = snapshot agent_kind false (λ a. matches_selector a sel) s

-- Go's strings and the text of a UUID: `len`, `strings.ToLower`, `strings.HasPrefix`, `uuid.String`.
pub record Texts : Type 0 where
  pub len : String → ℕ
  pub to_lower : String → String
  pub has_prefix : String → String → Bool
  pub show : Uuid → String

abbrev max_query_length : ℕ
max_query_length = 100

empty_response : ListResponse Agent
empty_response = record { items = []; continue_token = Token.empty; remaining_item_count = 0 }

unfoldable pub found_by : Texts → String → String → ListOptions → Time → Agent → Bool
unfolding connected_if
found_by t namespace prefix options now a =
    if not (a.metadata.namespace == namespace)
    then false
    else if not (t.has_prefix (t.to_lower (t.show a.metadata.instance_uid)) prefix)
    then false
    else connected_if options.connected_only now a

unfoldable pub search_agents :
    Texts → String → String → ListOptions → Time → AgentStore → Result (ListResponse Agent)
unfolding list found_by empty_response
search_agents t namespace query options now s =
    if ltb max_query_length (t.len query)
    then err query_too_long
    else if query == ""
    then ok empty_response
    else list agent_kind options (found_by t namespace (t.to_lower query) options now) s
