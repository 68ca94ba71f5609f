-- ===== src/Agent/Capabilities.antt =====
-- agent/capabilities.go: the capabilities of an agent, a bitmask in a uint64.
use opampcommander.Base.{ℕ, bit_and, Bool, ◌==◌, nat_eq, string_eq}

abbrev pub Capabilities : Type 0
Capabilities = ℕ

abbrev pub Capability : Type 0
Capability = ℕ

abbrev pub capability_unspecified : Capability
capability_unspecified = 0

abbrev pub capability_reports_status : Capability
capability_reports_status = 1

abbrev pub capability_accepts_remote_config : Capability
capability_accepts_remote_config = 2

abbrev pub capability_reports_effective_config : Capability
capability_reports_effective_config = 4

abbrev pub capability_accepts_packages : Capability
capability_accepts_packages = 8

abbrev pub capability_reports_package_statuses : Capability
capability_reports_package_statuses = 16

abbrev pub capability_reports_own_traces : Capability
capability_reports_own_traces = 32

abbrev pub capability_reports_own_metrics : Capability
capability_reports_own_metrics = 64

abbrev pub capability_reports_own_logs : Capability
capability_reports_own_logs = 128

abbrev pub capability_accepts_opamp_connection_settings : Capability
capability_accepts_opamp_connection_settings = 256

abbrev pub capability_accepts_other_connection_settings : Capability
capability_accepts_other_connection_settings = 512

abbrev pub capability_accepts_restart_command : Capability
capability_accepts_restart_command = 1024

abbrev pub capability_reports_health : Capability
capability_reports_health = 2048

abbrev pub capability_reports_remote_config : Capability
capability_reports_remote_config = 4096

abbrev pub capability_reports_heartbeat : Capability
capability_reports_heartbeat = 8192

abbrev pub capability_reports_available_components : Capability
capability_reports_available_components = 16384

-- `*a & c == c`; the receivers that the program passes are never nil.
unfoldable pub has : Capabilities → Capability → Bool
has a capability = bit_and a capability == capability

unfoldable pub has_reports_status : Capabilities → Bool
unfolding has
has_reports_status a = has a capability_reports_status

unfoldable pub has_accepts_remote_config : Capabilities → Bool
unfolding has
has_accepts_remote_config a = has a capability_accepts_remote_config

unfoldable pub has_reports_effective_config : Capabilities → Bool
unfolding has
has_reports_effective_config a = has a capability_reports_effective_config

unfoldable pub has_accepts_packages : Capabilities → Bool
unfolding has
has_accepts_packages a = has a capability_accepts_packages

unfoldable pub has_reports_package_statuses : Capabilities → Bool
unfolding has
has_reports_package_statuses a = has a capability_reports_package_statuses

unfoldable pub has_reports_own_traces : Capabilities → Bool
unfolding has
has_reports_own_traces a = has a capability_reports_own_traces

unfoldable pub has_reports_own_metrics : Capabilities → Bool
unfolding has
has_reports_own_metrics a = has a capability_reports_own_metrics

unfoldable pub has_reports_own_logs : Capabilities → Bool
unfolding has
has_reports_own_logs a = has a capability_reports_own_logs

unfoldable pub has_accepts_opamp_connection_settings : Capabilities → Bool
unfolding has
has_accepts_opamp_connection_settings a = has a capability_accepts_opamp_connection_settings

unfoldable pub has_other_connection_settings : Capabilities → Bool
unfolding has
has_other_connection_settings a = has a capability_accepts_other_connection_settings

unfoldable pub has_accepts_restart_command : Capabilities → Bool
unfolding has
has_accepts_restart_command a = has a capability_accepts_restart_command

unfoldable pub has_reports_health : Capabilities → Bool
unfolding has
has_reports_health a = has a capability_reports_health

unfoldable pub has_reports_remote_config : Capabilities → Bool
unfolding has
has_reports_remote_config a = has a capability_reports_remote_config

unfoldable pub has_reports_heartbeat : Capabilities → Bool
unfolding has
has_reports_heartbeat a = has a capability_reports_heartbeat

unfoldable pub has_reports_available_components : Capabilities → Bool
unfolding has
has_reports_available_components a = has a capability_reports_available_components
