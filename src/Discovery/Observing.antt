-- ===== src/Discovery/Observing.antt =====
-- service/host.go and service/container.go: the discovery from an agent's report, with its retries.
use opampcommander.Base.{
  ℕ, zero, suc, String, Option, none, some, if◌then◌else◌, ◌==◌, nat_eq, string_eq, Error, conflict,
  Result, ok, err,
}
use opampcommander.Agent.Types.{Uuid, Agent}
use opampcommander.Agent.Health.{Time}
use opampcommander.Agent.Description.{Description}
use opampcommander.Store.Ops.{Store}
use opampcommander.Discovery.{
  Host, Container, host_id_of, container_id_of, new_host, new_container, observe_host,
  observe_container,
}
use opampcommander.Discovery.Repository.{
  Versioned, hosts, containers, get_discovered, put_discovered,
}
use opampcommander.AgentService.{is_not_exist, is_conflict}

abbrev pub discovery_observe_conflict_retries : ℕ
discovery_observe_conflict_retries = 3

-- What the two services do apart: the identity, the empty aggregate and what an agent adds to it.
pub record Observer (V : Type 0) : Type 0 where
  pub versioned : Versioned V
  pub id_of : Description → String
  pub make : String → Time → V
  pub observe : Uuid → Description → Time → V → V

abbrev pub host_observer : Observer Host
host_observer = record {
  versioned = hosts;
  id_of = host_id_of;
  make = new_host;
  observe = observe_host;
}

abbrev pub container_observer : Observer Container
container_observer = record {
  versioned = containers;
  id_of = container_id_of;
  make = new_container;
  observe = observe_container;
}

module _ {V : Type 0} (o : Observer V) where
  -- The aggregate to add to, or the error that ends the discovery.
  found_or_new : String → Time → Result V → Result V
  unfolding is_not_exist
  found_or_new id now (ok v) = ok v
  found_or_new id now (err e) = if is_not_exist e then ok (o.make id now) else err e

  after_write :
      (Store String V → Store String V × Option Error)
      → Store String V × Result V
      → Store String V × Option Error
  unfolding is_conflict
  after_write again (s, ok v) = (s, none)
  after_write again (s, err e) = if is_conflict e then again s else (s, some e)

  -- `others` is what other servers write between the read and the write.
  attempt :
      (Store String V → Store String V × Option Error)
      → Agent
      → Time
      → (Store String V → Store String V)
      → Store String V
      → Result V
      → Store String V × Option Error
  unfolding after_write
  attempt again a now others s (err e) = (s, some e)
  attempt again a now others s (ok v) = after_write again (
      put_discovered o.versioned (o.observe a.metadata.instance_uid a.metadata.description now v)
        (others s))

  -- `left` retries are left after attempt `n`; the last conflict is returned.
  unfoldable pub observe_loop :
      ℕ
      → ℕ
      → (ℕ → Store String V → Store String V)
      → Agent
      → Time
      → String
      → Store String V
      → Store String V × Option Error
  unfolding attempt found_or_new get_discovered
  observe_loop zero n others a now id s =
      attempt (λ s'. (s', some conflict)) a now (others n) s
        (found_or_new id now (get_discovered o.versioned id s))
  observe_loop (suc left) n others a now id s =
      attempt (observe_loop left (suc n) others a now id) a now (others n) s
        (found_or_new id now (get_discovered o.versioned id s))

  unfoldable pub observe_agent :
      (ℕ → Store String V → Store String V)
      → Agent
      → Time
      → Store String V
      → Store String V × Option Error
  unfolding observe_loop
  observe_agent others a now s =
      let id = o.id_of a.metadata.description in
      if id == ""
      then (s, none)
      else observe_loop discovery_observe_conflict_retries 0 others a now id s
