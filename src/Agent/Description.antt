-- ===== src/Agent/Description.antt =====
-- agent/description.go, agenttype.go, host.go, container.go, k8s.go, cloud.go, platform.go: what an
-- agent says of itself, and what the server derives from it.
use opampcommander.Base.{
  String, Bool, not, ◌&&◌, ◌||◌, Option, none, some, if◌then◌else◌, ◌==◌, nat_eq, string_eq, GoMap,
  elems, lookup, get_string,
}
use text.Mathlib.Text.{starts_with}

pub record Description : Type 0 where
  pub identifying_attributes : GoMap String
  pub non_identifying_attributes : GoMap String

-- vo.OS
pub record Os : Type 0 where
  pub type : String
  pub version : String

-- vo.Service
pub record Service : Type 0 where
  pub name : String
  pub namespace : String
  pub version : String
  pub instance_id : String

pub record Host : Type 0 where
  pub id : String
  pub name : String
  pub arch : String
  pub type : String

pub record Container : Type 0 where
  pub id : String
  pub name : String
  pub image_name : String
  pub runtime : String

pub record K8s : Type 0 where
  pub pod_name : String
  pub pod_uid : String
  pub namespace_name : String
  pub node_name : String
  pub container_name : String

pub record Cloud : Type 0 where
  pub provider : String
  pub platform : String
  pub region : String

pub data EnvironmentKind : Type 0 where
  host container unknown : EnvironmentKind

pub data Platform : Type 0 where
  bare_metal vm docker kubernetes ecs unknown : Platform

-- An `ok` lookup whose value is not empty, else the other map.
prefer : Option String → String → String
prefer none other = other
prefer (some value) other = if value == "" then other else value

unfoldable pub attr : Description → String → String
unfolding prefer get_string
attr ad key =
    prefer (lookup key (elems ad.non_identifying_attributes))
      (get_string ad.identifying_attributes key)

unfoldable pub os_of : Description → Os
unfolding get_string
os_of ad = record {
  type = get_string ad.non_identifying_attributes "os.type";
  version = get_string ad.non_identifying_attributes "os.version";
}

unfoldable pub service_of : Description → Service
unfolding get_string
service_of ad = record {
  name = get_string ad.identifying_attributes "service.name";
  namespace = get_string ad.identifying_attributes "service.namespace";
  version = get_string ad.identifying_attributes "service.version";
  instance_id = get_string ad.identifying_attributes "service.instance.id";
}

unfoldable pub host_of : Description → Host
host_of ad = record {
  id = attr ad "host.id";
  name = attr ad "host.name";
  arch = attr ad "host.arch";
  type = attr ad "host.type";
}

unfoldable pub container_of : Description → Container
container_of ad = record {
  id = attr ad "container.id";
  name = attr ad "container.name";
  image_name = attr ad "container.image.name";
  runtime = attr ad "container.runtime";
}

unfoldable pub k8s_of : Description → K8s
k8s_of ad = record {
  pod_name = attr ad "k8s.pod.name";
  pod_uid = attr ad "k8s.pod.uid";
  namespace_name = attr ad "k8s.namespace.name";
  node_name = attr ad "k8s.node.name";
  container_name = attr ad "k8s.container.name";
}

unfoldable pub cloud_of : Description → Cloud
cloud_of ad = record {
  provider = attr ad "cloud.provider";
  platform = attr ad "cloud.platform";
  region = attr ad "cloud.region";
}

unfoldable pub host_is_zero : Host → Bool
host_is_zero h = h.id == "" && h.name == "" && h.arch == "" && h.type == ""

unfoldable pub container_is_zero : Container → Bool
container_is_zero c = c.id == "" && c.name == "" && c.image_name == "" && c.runtime == ""

unfoldable pub k8s_is_zero : K8s → Bool
k8s_is_zero k =
    k.pod_name == ""
    && k.pod_uid == ""
    && k.namespace_name == ""
    && k.node_name == ""
    && k.container_name == ""

unfoldable pub environment_kind : Description → EnvironmentKind
environment_kind ad =
    if not (container_is_zero (container_of ad)) || not (k8s_is_zero (k8s_of ad))
    then EnvironmentKind.container
    else if not (host_is_zero (host_of ad))
    then EnvironmentKind.host
    else EnvironmentKind.unknown

unfoldable pub platform_of : Description → Platform
platform_of ad =
    if not (k8s_is_zero (k8s_of ad))
    then Platform.kubernetes
    else if (cloud_of ad).platform == "aws_ecs"
    then Platform.ecs
    else if not (container_is_zero (container_of ad))
    then Platform.docker
    else if not (host_is_zero (host_of ad))
    then (if (cloud_of ad).provider == "" then Platform.bare_metal else Platform.vm)
    else Platform.unknown

abbrev pub otel_collector_prefix : String
otel_collector_prefix = "otelcol"

abbrev pub otel_collector_dash : String
otel_collector_dash = "otelcol-"

abbrev pub type_unknown : String
type_unknown = "unknown"

unfoldable pub agent_type : Description → String
agent_type ad =
    let name = (service_of ad).name in
    if name == otel_collector_prefix || starts_with name otel_collector_dash
    then name
    else type_unknown

unfoldable pub is_otel_collector : String → Bool
is_otel_collector t = not (t == type_unknown)
