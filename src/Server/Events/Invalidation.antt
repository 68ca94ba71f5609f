-- ===== src/Server/Events/Invalidation.antt =====
-- service/server.go: the cache of one server while another writes.
use opampcommander.Base.{
  String, ◌≡◌, refl, ◌∙◌, inl, inr, Option, none, some, [], ◌∷◌, nat_eq, string_eq, Error,
}
use opampcommander.Agent.Types.{Agent}
use opampcommander.Agent.Health.{Time}
use opampcommander.Store.Agents.{put_agent}
use opampcommander.AgentService.{invalidate_cache}
use opampcommander.AgentService.Loads.{put_agent-cases}
use opampcommander.AgentService.Coherence.{
  Coherent, CoherentBut, invalidate_cache-Coherent, invalidate_cache-store,
}
use opampcommander.Connection.{ConnectionId}
use opampcommander.ServerToAgent.Message.{Message}
use opampcommander.OpAmp.State.{Service, State}
use opampcommander.Server.{Server}
use opampcommander.Server.Events.{
  invalidation_for, invalidate_all, handle_invalidate_agent_cache_event, handle_server_event,
}

module _ {C : Type 0} (svc : Service C) where
  -- This server once another has written the agent to the repository that they share.
  abbrev pub written_elsewhere : Agent → State C → State C
  written_elsewhere a st = record st {
    agents = record st.agents { store = (put_agent a st.agents.store).0 };
  }

  written-CoherentBut :
      (a : Agent) (st : State C)
      → Coherent svc.cache svc.agents st.agents
      → CoherentBut svc.cache svc.agents a.metadata.instance_uid (written_elsewhere a st).agents
  written-CoherentBut a st c q j v d e = elim (put_agent-cases a st.agents.store) [
    | inl h ↦ rw h (c q j v e)
    | inr (accepted, u, l) ↦ l j ∙ rw d (c q j v e)
  ]

  -- A server whose cache agrees with the repository gets the message that another server posts after
  -- it has written an agent: handling it succeeds, leaves the repository as written, and the cache agrees
  -- with the repository again.
  pub handle_server_event-Coherent :
      (send : ConnectionId → Message → Option Error) (now : Time) (source : String)
      (target : Server) (a : Agent) (st : State C)
      → Coherent svc.cache svc.agents st.agents
      → (after : State C) × ((handle_server_event svc send now
              (invalidation_for source (some (a.metadata.instance_uid ∷ [])) target)
              (written_elsewhere a st)
            ≡ some (after, none))
          × (Coherent svc.cache svc.agents after.agents
              × (after.agents.store ≡ (put_agent a st.agents.store).0)))
  unfolding handle_server_event handle_invalidate_agent_cache_event invalidate_all invalidation_for
  handle_server_event-Coherent send now source target a st c =
      let uid = a.metadata.instance_uid in
      let there = written_elsewhere a st in
      (
        record there { agents = invalidate_cache svc.cache svc.agents uid there.agents },
        (
          refl,
          (
            invalidate_cache-Coherent svc.cache svc.agents uid there.agents
                (written-CoherentBut a st c),
            invalidate_cache-store svc.cache svc.agents uid there.agents,
          ),
        ),
      )
