-- ===== src/Agent/Health.antt =====
-- agent.go: the two recursive types, component health and available components.
use opampcommander.Base.{ℕ, ◌+◌, String, Bool, ltb, ◌==◌, nat_eq, string_eq, GoMap}

abbrev pub Time : Type 0
Time = ℕ

-- `time.Time` as nanoseconds since its zero value.
unfoldable pub is_zero : Time → Bool
is_zero t = t == 0

-- `now.Sub(t) < d` for a duration `d` that is not negative; `now.Sub(t)` may be.
unfoldable pub sub_lt : Time → Time → ℕ → Bool
sub_lt now t d = ltb now (t + d)

-- AgentComponentHealth: healthy, start time, last error, status, status time, sub-components.
mutual
  pub data ComponentHealth : Type 0 where
    component_health : Bool → Time → String → String → Time → HealthMap → ComponentHealth

  pub data HealthMap : Type 0 where
    nil : HealthMap
    made : HealthEntries → HealthMap

  pub data HealthEntries : Type 0 where
    end : HealthEntries
    entry : String → ComponentHealth → HealthEntries → HealthEntries

abbrev pub healthy : ComponentHealth → Bool
healthy (component_health h t e s o m) = h

abbrev pub start_time : ComponentHealth → Time
start_time (component_health h t e s o m) = t

-- ComponentDetails: metadata, sub-components.
mutual
  pub data ComponentDetails : Type 0 where
    component_details : GoMap String → DetailsMap → ComponentDetails

  pub data DetailsMap : Type 0 where
    nil : DetailsMap
    made : DetailsEntries → DetailsMap

  pub data DetailsEntries : Type 0 where
    end : DetailsEntries
    entry : String → ComponentDetails → DetailsEntries → DetailsEntries
