-- ===== src/Discovery.antt =====
-- host.go and container.go: what the server discovers of the machines and containers of its agents.
pub mod Repository
pub mod Observing
use opampcommander.Base.{
  ℕ, ◌+◌, ◌-◌, String, Bool, false, not, ◌||◌, none, some, List, [], ◌∷◌, ◌++◌, if◌then◌else◌, ◌==◌,
  nat_eq, string_eq, GoSlice, GoMap, elems,
}
use opampcommander.Agent.Types.{Uuid, Condition}
use opampcommander.Agent.Health.{Time}
use opampcommander.Agent.Description.{
  Description, Platform, Os, K8s, Cloud, os_of, host_of, container_of, k8s_of, cloud_of,
  platform_of,
}
use opampcommander.Agent.Description.{Container as ContainerAttributes}

pub record DiscoveryMetadata : Type 0 where
  pub id : String
  pub name : String
  pub labels : GoMap String
  pub annotations : GoMap String
  pub resource_version : ℕ
  pub first_seen_at : Time
  pub last_seen_at : Time

pub record DiscoveryStatus : Type 0 where
  pub agent_instance_uids : GoSlice Uuid
  pub conditions : GoSlice Condition

pub record HostSpec : Type 0 where
  pub platform : Platform
  pub arch : String
  pub type : String
  pub os : Os
  pub cloud : Cloud

pub record Host : Type 0 where
  pub metadata : DiscoveryMetadata
  pub spec : HostSpec
  pub status : DiscoveryStatus

pub record ContainerSpec : Type 0 where
  pub platform : Platform
  pub image_name : String
  pub runtime : String
  pub host_id : String
  pub k8s : K8s

pub record Container : Type 0 where
  pub metadata : DiscoveryMetadata
  pub spec : ContainerSpec
  pub status : DiscoveryStatus

unfoldable pub host_id_of : Description → String
unfolding host_of
host_id_of desc = let host = host_of desc in if not (host.id == "") then host.id else host.name

fresh_metadata : String → Time → DiscoveryMetadata
fresh_metadata id now = record {
  id = id;
  name = "";
  labels = some [];
  annotations = some [];
  resource_version = 0;
  first_seen_at = now;
  last_seen_at = now;
}

unfoldable pub new_host : String → Time → Host
unfolding fresh_metadata
new_host id now = record {
  metadata = fresh_metadata id now;
  spec = record {
    platform = Platform.unknown;
    arch = "";
    type = "";
    os = record { type = ""; version = "" };
    cloud = record { provider = ""; platform = ""; region = "" };
  };
  status = record { agent_instance_uids = none; conditions = none };
}

-- slices.Contains
unfoldable pub contains : Uuid → List Uuid → Bool
contains uid [] = false
contains uid (u ∷ us) = u == uid || contains uid us

unfoldable pub append_unique_uid : GoSlice Uuid → Uuid → GoSlice Uuid
unfolding contains
append_unique_uid uids uid =
    if contains uid (elems uids) then uids else some (elems uids ++ uid ∷ [])

seen : String → Time → DiscoveryMetadata → DiscoveryMetadata
seen name now m = record m { name = if not (name == "") then name else m.name; last_seen_at = now }

associated : Uuid → DiscoveryStatus → DiscoveryStatus
unfolding append_unique_uid
associated uid s = record s { agent_instance_uids = append_unique_uid s.agent_instance_uids uid }

unfoldable pub observe_host : Uuid → Description → Time → Host → Host
unfolding seen associated host_of platform_of os_of cloud_of
observe_host uid desc now h =
    let host = host_of desc in
    record {
      metadata = seen host.name now h.metadata;
      spec = record {
        platform = platform_of desc;
        arch = host.arch;
        type = host.type;
        os = os_of desc;
        cloud = cloud_of desc;
      };
      status = associated uid h.status;
    }

unfoldable pub container_id_of : Description → String
unfolding k8s_of container_of
container_id_of desc =
    let uid = (k8s_of desc).pod_uid in if not (uid == "") then uid else (container_of desc).id

unfoldable pub new_container : String → Time → Container
unfolding fresh_metadata
new_container id now = record {
  metadata = fresh_metadata id now;
  spec = record {
    platform = Platform.unknown;
    image_name = "";
    runtime = "";
    host_id = "";
    k8s = record {
      pod_name = "";
      pod_uid = "";
      namespace_name = "";
      node_name = "";
      container_name = "";
    };
  };
  status = record { agent_instance_uids = none; conditions = none };
}

unfoldable pub container_name : ContainerAttributes → K8s → String
container_name c k = if not (c.name == "") then c.name else k.pod_name

unfoldable pub container_host_id : Description → String
unfolding host_id_of k8s_of
container_host_id desc =
    let id = host_id_of desc in if not (id == "") then id else (k8s_of desc).node_name

unfoldable pub observe_container : Uuid → Description → Time → Container → Container
unfolding seen associated container_of k8s_of platform_of container_name container_host_id
observe_container uid desc now c =
    let container = container_of desc in
    let k8s = k8s_of desc in
    record {
      metadata = seen (container_name container k8s) now c.metadata;
      spec = record {
        platform = platform_of desc;
        image_name = container.image_name;
        runtime = container.runtime;
        host_id = container_host_id desc;
        k8s = k8s;
      };
      status = associated uid c.status;
    }
