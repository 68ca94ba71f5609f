-- ===== src/Agent/Clone/Laws.antt =====
-- agent.go: the clone of a clone. Most parts are copied as they stand; a nil map of configs,
-- packages or health components becomes an empty one.
use opampcommander.Base.{
  String, ◌≡◌, refl, ap, Option, none, some, List, [], ◌∷◌, nat_eq, string_eq, GoSlice, Assoc,
  GoMap, elems,
}
use opampcommander.Agent.Types.{
  AgentMetadata, AgentConfigFile, AgentConfigMap, AgentSpecRemoteConfig, AgentSpecPackage,
  AgentRestartInfo, AgentSpec, AgentPackageStatusEntry, AgentPackageStatuses, AgentStatus, Agent,
}
use opampcommander.Agent.Health.{
  ComponentHealth, component_health, HealthMap, HealthEntries, ComponentDetails, component_details,
  DetailsMap, DetailsEntries,
}
use opampcommander.Agent.Settings.{
  AgentCertificate, AgentOpAmpConnectionSettings, AgentTelemetryConnectionSettings,
  AgentOtherConnectionSettings, ConnectionInfo,
}
use opampcommander.Agent.Health.{
  ComponentHealth, component_health, HealthMap, HealthEntries, ComponentDetails, component_details,
  DetailsMap, DetailsEntries,
}
use opampcommander.Agent.Settings.{
  AgentCertificate, AgentOpAmpConnectionSettings, AgentTelemetryConnectionSettings,
  AgentOtherConnectionSettings, ConnectionInfo,
}
use opampcommander.Agent.Clone.{
  clone_list, clone_slice, clone_entries, clone_string_map, clone_certificate, clone_headers,
  clone_opamp_connection_settings, clone_telemetry_connection_settings, clone_other,
  clone_other_connections, clone_connection_info, clone_config_file, clone_config_map,
  clone_remote_config, clone_restart_info, clone_packages_available, clone_package_status,
  clone_package_statuses, clone_component_health, clone_health_map, clone_health_entries,
  clone_details, clone_component_details, clone_details_entries, clone_metadata, clone_spec,
  clone_status, clone,
}

clone_list-id {ℓ} : {A : Type ℓ} (xs : List A) → clone_list xs ≡ xs
unfolding clone_list
clone_list-id [] = refl
clone_list-id (x ∷ xs) = ap (x ∷◌) (clone_list-id xs)

clone_slice-id {ℓ} : {A : Type ℓ} (xs : GoSlice A) → clone_slice xs ≡ xs
unfolding clone_slice
clone_slice-id none = refl
clone_slice-id (some xs) = ap some (clone_list-id xs)

clone_entries-id {ℓ} :
    {V : Type ℓ} (f : V → V) → ((v : V) → f v ≡ v) → (m : Assoc V) → clone_entries f m ≡ m
unfolding clone_entries
clone_entries-id f h [] = refl
clone_entries-id f h ((k, v) ∷ m) = rw (h v, clone_entries-id f h m) refl

clone_string_map-id : (m : GoMap String) → clone_string_map m ≡ m
unfolding clone_string_map
clone_string_map-id none = refl
clone_string_map-id (some m) = ap some (clone_list-id m)

clone_certificate-id : (c : Option AgentCertificate) → clone_certificate c ≡ c
unfolding clone_certificate
clone_certificate-id none = refl
clone_certificate-id (some c) =
    rw (clone_slice-id c.cert, clone_slice-id c.private_key, clone_slice-id c.ca_cert) refl

clone_headers-id : (h : GoMap (GoSlice String)) → clone_headers h ≡ h
unfolding clone_headers
clone_headers-id none = refl
clone_headers-id (some m) = ap some (clone_entries-id clone_slice clone_slice-id m)

clone_opamp-id : (s : Option AgentOpAmpConnectionSettings) → clone_opamp_connection_settings s ≡ s
unfolding clone_opamp_connection_settings
clone_opamp-id none = refl
clone_opamp-id (some s) = rw (clone_headers-id s.headers, clone_certificate-id s.certificate) refl

clone_telemetry-id :
    (s : Option AgentTelemetryConnectionSettings) → clone_telemetry_connection_settings s ≡ s
unfolding clone_telemetry_connection_settings
clone_telemetry-id none = refl
clone_telemetry-id (some s) =
    rw (clone_headers-id s.headers, clone_certificate-id s.certificate) refl

clone_other-id : (s : AgentOtherConnectionSettings) → clone_other s ≡ s
unfolding clone_other
clone_other-id s = rw (clone_headers-id s.headers, clone_certificate-id s.certificate) refl

clone_other_connections-id :
    (m : GoMap AgentOtherConnectionSettings) → clone_other_connections m ≡ m
unfolding clone_other_connections
clone_other_connections-id none = refl
clone_other_connections-id (some m) = ap some (clone_entries-id clone_other clone_other-id m)

clone_connection_info-id : (c : Option ConnectionInfo) → clone_connection_info c ≡ c
unfolding clone_connection_info
clone_connection_info-id none = refl
clone_connection_info-id (some c) =
    rw
      (
        clone_slice-id c.hash,
        clone_opamp-id c.opamp,
        clone_telemetry-id c.own_metrics,
        clone_telemetry-id c.own_logs,
        clone_telemetry-id c.own_traces,
        clone_other_connections-id c.other_connections,
      )
      refl

clone_config_file-id : (f : AgentConfigFile) → clone_config_file f ≡ f
unfolding clone_config_file
clone_config_file-id f = rw (clone_slice-id f.body) refl

clone_config_map_idem :
    (m : AgentConfigMap) → clone_config_map (clone_config_map m) ≡ clone_config_map m
unfolding clone_config_map
clone_config_map_idem m =
    rw
      (clone_entries-id clone_config_file clone_config_file-id
        (clone_entries clone_config_file (elems m.config_map)))
      refl

clone_remote_config_idem :
    (rc : Option AgentSpecRemoteConfig)
    → clone_remote_config (clone_remote_config rc) ≡ clone_remote_config rc
unfolding clone_remote_config
clone_remote_config_idem none = refl
clone_remote_config_idem (some rc) =
    ap (λ m. some (record { config_map = m })) (clone_config_map_idem rc.config_map)

clone_restart_info-id : (r : Option AgentRestartInfo) → clone_restart_info r ≡ r
unfolding clone_restart_info
clone_restart_info-id none = refl
clone_restart_info-id (some r) = refl

clone_packages_available-id : (p : Option AgentSpecPackage) → clone_packages_available p ≡ p
unfolding clone_packages_available
clone_packages_available-id none = refl
clone_packages_available-id (some p) = rw (clone_slice-id p.packages) refl

clone_package_status-id : (s : AgentPackageStatusEntry) → clone_package_status s ≡ s
unfolding clone_package_status
clone_package_status-id s = rw (clone_slice-id s.agent_has_hash) refl

clone_package_statuses_idem :
    (p : AgentPackageStatuses)
    → clone_package_statuses (clone_package_statuses p) ≡ clone_package_statuses p
unfolding clone_package_statuses
clone_package_statuses_idem p =
    rw
      (
        clone_entries-id clone_package_status clone_package_status-id
            (clone_entries clone_package_status (elems p.packages)),
        clone_slice-id (clone_slice p.server_provided_all_packges_hash),
      )
      refl

mutual
  unfolding clone_component_health

  clone_component_health_idem :
      (c : ComponentHealth)
      → clone_component_health (clone_component_health c) ≡ clone_component_health c
  clone_component_health_idem (component_health h t e s o m) =
      ap (component_health h t e s o) (clone_health_map_idem m)

  clone_health_map_idem :
      (m : HealthMap) → clone_health_map (clone_health_map m) ≡ clone_health_map m
  clone_health_map_idem HealthMap.nil = refl
  clone_health_map_idem (HealthMap.made es) = ap HealthMap.made (clone_health_entries_idem es)

  clone_health_entries_idem :
      (es : HealthEntries)
      → clone_health_entries (clone_health_entries es) ≡ clone_health_entries es
  clone_health_entries_idem HealthEntries.end = refl
  clone_health_entries_idem (HealthEntries.entry k h es) =
      rw (clone_component_health_idem h, clone_health_entries_idem es) refl

mutual
  unfolding clone_details

  clone_details-id : (d : ComponentDetails) → clone_details d ≡ d
  clone_details-id (component_details m subs) =
      rw (clone_string_map-id m, clone_component_details-id subs) refl

  clone_component_details-id : (m : DetailsMap) → clone_component_details m ≡ m
  clone_component_details-id DetailsMap.nil = refl
  clone_component_details-id (DetailsMap.made es) = ap DetailsMap.made (clone_details_entries-id es)

  clone_details_entries-id : (es : DetailsEntries) → clone_details_entries es ≡ es
  clone_details_entries-id DetailsEntries.end = refl
  clone_details_entries-id (DetailsEntries.entry k d es) =
      rw (clone_details-id d, clone_details_entries-id es) refl

pub clone_metadata-id : (m : AgentMetadata) → clone_metadata m ≡ m
unfolding clone_metadata
clone_metadata-id m =
    rw
      (
        clone_string_map-id m.description.identifying_attributes,
        clone_string_map-id m.description.non_identifying_attributes,
        clone_slice-id m.custom_capabilities.capabilities,
      )
      refl

clone_spec_idem : (s : AgentSpec) → clone_spec (clone_spec s) ≡ clone_spec s
unfolding clone_spec
clone_spec_idem s =
    rw
      (
        clone_restart_info-id s.restart_info,
        clone_restart_info-id s.restart_info,
        clone_connection_info-id s.connection_info,
        clone_connection_info-id s.connection_info,
        clone_remote_config_idem s.remote_config,
        clone_packages_available-id s.packages_available,
        clone_packages_available-id s.packages_available,
      )
      refl

clone_status_idem : (s : AgentStatus) → clone_status (clone_status s) ≡ clone_status s
unfolding clone_status
clone_status_idem s =
    rw
      (
        clone_slice-id (clone_slice s.remote_config_status.last_remote_config_hash),
        clone_slice-id (clone_slice s.connection_settings_status.last_connection_settings_hash),
        clone_config_map_idem s.effective_config.config_map,
        clone_package_statuses_idem s.package_statuses,
        clone_component_health_idem s.component_health,
        clone_component_details-id (clone_component_details s.available_components.components),
        clone_slice-id (clone_slice s.available_components.hash),
        clone_slice-id (clone_slice s.conditions),
      )
      refl

-- The clone of a clone equals that clone, in every part of the agent: what cloning changes, nil maps
-- that become empty, it changes once.
pub clone_idem : (a : Agent) → clone (clone a) ≡ clone a
unfolding clone
clone_idem a =
    rw
      (
        clone_metadata-id a.metadata,
        clone_metadata-id a.metadata,
        clone_spec_idem a.spec,
        clone_status_idem a.status,
      )
      refl
