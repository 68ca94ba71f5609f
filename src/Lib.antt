-- ===== src/Lib.antt =====
-- opampcommander, a server that manages OpenTelemetry agents over OpAMP: what an agent reports, what
-- the operator wants of it, and the message that tells it so.
--
-- The parts, and how they meet. An agent (pkg/apiserver/domain/agent/agent.go) keeps what it reported
-- and its desired state. Its connection delivers messages to the OpAMP service
-- (application/service/opamp), which loads the agent, applies the report, saves the agent and
-- answers. The agent service (domain/agent/service/agent.go) stands between that service and the
-- repository and keeps a cache with times to live. Agent groups (agentgroup.go beside agent.go)
-- select agents by namespace and attributes. The agent group service (service/agentgroup.go) finds
-- the groups that govern an agent, resolves the configs that they declare and writes them and the
-- connection settings into the agent's spec. The builder (service/servertoagent.go) makes the
-- message of an agent from its spec. The repository
-- (pkg/apiserver/adapter/secondary/persistence/inmemory) keeps the agents, with optimistic
-- concurrency and pages. Several servers share the agents: each keeps its own connections and its
-- own cache, writes a heartbeat, and tells the others of what it changed by events. What an agent
-- describes of its host and container is kept in records of their own. Users get roles by bindings
-- (pkg/apiserver/domain/user); the RBAC service (service/rbac.go beside it) answers what a user may
-- do and hands the enforcer its policies.
--
-- Which file models which part. A function keeps its name in snake_case, a method takes its receiver
-- as an argument, and a method that changes its receiver returns the new one.
--   Base: the shared library. Maps are association lists in one of the orders in which Go may visit
--     them, nil slices and maps are `none`, errors are the values of `Error`.
--   Agent: agent.go (Types, Methods, Options, Reports, Conditions, Connecting, Settings, Health,
--     Clone) and the package agent/ beside it (Capabilities, Description).
--   Group: agentgroup.go (Types, Deletion) and service/agentgroup.go: GetAgentGroupsForAgent
--     (Select), collectGroupRemoteConfigs and resolveRemoteConfig (Resolve), applyConnectionSettings
--     (Connect), ApplyMatchingAgentGroupsToAgent (Apply), recordAgentRemoteConfigCondition
--     (Condition).
--   ServerToAgent: ServerToAgentBuilder.Build and the functions that it calls.
--   Store: store.go (Ops), agent.go and common.go (Agents) of the in-memory persistence.
--   AgentService: service/agent.go over the cache and the store.
--   Discovery: host.go, container.go and service/host.go, container.go with their in-memory
--     repositories.
--   Connection: connection.go and service/connection.go over the map with indexes.
--   OpAmp: opamp.go, protobufsToDomain.go, instanceuid_conflict.go and serverToAgent.go of
--     application/service/opamp: the message of the agent (Proto), its translation (ToDomain), the
--     report (Report), duplicate instance UIDs (Conflict), OnMessage (Message), OnConnectionClose
--     (Cleanup).
--   Server: server.go, service/server.go and service/serveridentity.go: leadership (Leader), the
--     heartbeat (Heartbeat) and the events between servers (Events).
--   Access: permission.go and role.go (Roles), user.go and rolebinding.go (Users) of domain/user and
--     service/rbac.go there (Rbac, Sync).
--   MultiMap: pkg/xsync/multimap.go, the map with indexes that keeps the connections.
--   Examples: the theorems at concrete agents, groups and stores.
--
-- Parameters. The JSON encoder and the FNV hash (`ConnectionHash`, `Library`), the numbers of the
-- OpAMP protocol (`Protocol`), the ports of remote configs, certificates and packages (`Ports`,
-- `Lookup`), the listed groups, the cache library (`TtlCache`), the formats of strings (`Names`,
-- `Formats`), the transports (`send`, `post`), the enforcer of policies (`Enforcer`), what the
-- repositories of users and roles answer (`RbacService`), the clock, fresh UUIDs and the text of a
-- UUID are arguments. The hypotheses on them are `Encodes`, that the encoder does not fail on the
-- two maps that are hashed, and the laws of `TtlCache`, what its library documents of get, set and
-- delete.
--
-- Panics. Where the code dereferences a pointer that may be nil, the model returns an `Option` in
-- which `none` is the panic: HasNewPackages, HasConnectionSettings, the setters of connection
-- settings, and Build, which calls the first two. A message's instance UID is a UUID: OnMessage panics
-- on any other number of bytes, before it does anything.
--
-- Numbers. A uint64 and an int64 are their 64-bit patterns: versions and insertion sequences are
-- taken modulo 2^64. Loops are structural. `walk`, a client of `list` that follows the continue
-- tokens, runs on fuel; one request more than there are values is enough for it. The loops of the
-- code that try again are bounded by the code's own counts, and recurse on these.
--
-- Not modelled: logging, contexts and locks (each method of the store holds its lock throughout),
-- what a value shares with its copy, the lists of connections and the cache of servers, the
-- notifications of agents, the reconcile loop, the editing of users, roles and bindings, endpoints,
-- the HTTP API, MongoDB, Kafka and the command line.
pub mod Base
pub mod Access
pub mod Agent
pub mod Group
pub mod ServerToAgent
pub mod Store
pub mod MultiMap
pub mod AgentService
pub mod Connection
pub mod Discovery
pub mod OpAmp
pub mod Server
pub mod Examples
