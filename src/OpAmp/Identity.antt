-- ===== src/OpAmp/Identity.antt =====
-- opamp.go, instanceuid_conflict.go: the messages that are answered by a fresh instance UID.
use opampcommander.Base.{
  String, ◌≡◌, sym, ap, ◌∙◌, ◌≢◌, ◌↔◌, Option, some, [], nat_eq, string_eq, elems, ok,
}
use opampcommander.Base.MapLaws.{IsMap}
use opampcommander.Agent.Types.{Uuid, uuid_nil, Agent}
use opampcommander.Store.Agents.{AgentStore, get_agent as load_agent}
use opampcommander.AgentService.Coherence.{Coherent}
use opampcommander.Connection.{ConnectionId}
use opampcommander.OpAmp.Proto.{AgentToServer, AgentDescription}
use opampcommander.OpAmp.ToDomain.{to_map}
use opampcommander.OpAmp.State.{Service as OpAmpService, State, Readings, Response}
use opampcommander.OpAmp.Attributes.{ToldApart, attributes_differ_iff, to_map-IsMap}
use opampcommander.OpAmp.Claims.{Claimed, is_renewal, on_message-Claimed, Claimed-on_message}
use opampcommander.OpAmp.Message.{on_message}

module _ {C : Type 0} (svc : OpAmpService C) where
  -- The message names, under a UID that is not nil, another agent than the one that is stored there.
  pub record Disputed (m : AgentToServer) (s : AgentStore) : Type 0 where
    pub owner : Agent
    pub desc : AgentDescription
    pub has_uid : m.instance_uid ≢ uuid_nil
    pub stored : load_agent m.instance_uid s ≡ ok owner
    pub sent : m.agent_description ≡ some desc
    pub told : to_map svc.formats desc.identifying_attributes ≢ []
    pub known : elems owner.metadata.description.identifying_attributes ≢ []
    pub apart :
        ToldApart
          (to_map svc.formats desc.identifying_attributes)
          (elems owner.metadata.description.identifying_attributes)

  -- The stored agent's attributes are a map.
  abbrev pub HasMap : AgentToServer → AgentStore → Type 0
  HasMap m s =
      (a : Agent)
      → load_agent m.instance_uid s ≡ ok a
      → IsMap (elems a.metadata.description.identifying_attributes)

  Disputed-Claimed :
      (m : AgentToServer) (s : AgentStore) → HasMap m s → Disputed m s → Claimed svc m s
  Disputed-Claimed m s h d = record {
    owner = d.owner;
    desc = d.desc;
    has_uid = d.has_uid;
    stored = d.stored;
    sent = d.sent;
    differ =
        (attributes_differ_iff _ _ (to_map-IsMap svc.formats d.desc.identifying_attributes)
            (h d.owner d.stored)).1
          (d.told, (d.known, d.apart));
  }

  Claimed-Disputed :
      (m : AgentToServer) (s : AgentStore) → HasMap m s → Claimed svc m s → Disputed m s
  Claimed-Disputed m s h d =
      let (told, (known, apart)) =
        (attributes_differ_iff _ _ (to_map-IsMap svc.formats d.desc.identifying_attributes)
            (h d.owner d.stored)).0
          d.differ in
      record {
        owner = d.owner;
        desc = d.desc;
        has_uid = d.has_uid;
        stored = d.stored;
        sent = d.sent;
        told = told;
        known = known;
        apart = apart;
      }

  -- While the cache agrees with the repository and the attributes of the agent stored under the
  -- message's UID are a map: the service redirects the sender to the fresh UID, with a message that
  -- holds nothing but the old and the fresh UID, exactly when the message's UID is not nil, an agent
  -- is stored under it, both the message and that agent have identifying attributes, and these tell
  -- the two apart: by service.instance.id where both have it, and else by any attribute. It sends
  -- such a redirection with no other UIDs. (A message built for an agent, which may carry the new UID
  -- that the agent's spec asks for, is no redirection.)
  pub on_message-renewal_iff :
      (t : Readings) (server : Option String) (id : ConnectionId) (m : AgentToServer) (st : State C)
      → Coherent svc.cache svc.agents st.agents
      → HasMap m st.agents.store
      → ((on_message svc t server id m st).1 ≡ some (Response.renewal m.instance_uid t.fresh_uid)
          ↔ Disputed m st.agents.store)
        × ((old new : Uuid)
            → (on_message svc t server id m st).1 ≡ some (Response.renewal old new)
            → (old ≡ m.instance_uid) × (new ≡ t.fresh_uid))
  on_message-renewal_iff t server id m st c h =
      let claims = (on_message-Claimed svc t server id m st c).0 in
      (
        (
          λ e. Claimed-Disputed m st.agents.store h (claims (ap is_renewal e)),
          λ d. Claimed-on_message svc t server id m st c (Disputed-Claimed m st.agents.store h d),
        ),
        λ old new e.
            let f : some (Response.renewal old new)
                ≡ some (Response.renewal m.instance_uid t.fresh_uid) =
              sym e ∙ Claimed-on_message svc t server id m st c (claims (ap is_renewal e)) in
            (cc f, cc f),
      )
