-- ===== src/AgentService/Loads.antt =====
-- service/agent.go: the repository, as the agent service reads it.
use opampcommander.Base.{
  ◌≡◌, refl, sym, ◌∙◌, ◌⊎◌, inl, inr, Option, none, some, arith, nat_beq_iff, if◌then◌else◌, ◌==◌,
  nat_eq, string_eq, Bool-cases, Option-cases, Error, resource_not_exist, conflict, ok, err,
}
use opampcommander.Agent.Types.{Uuid, Agent}
use opampcommander.Store.Ops.{find_item, delete}
use opampcommander.Store.Lookup.{find_item-remove_item}
use opampcommander.Store.Versions.{
  stored_version, put_agent-stale, put_agent-current, get_agent-put_agent, get_agent-found, found,
  value_of,
}
use opampcommander.Store.Agents.{
  AgentStore, with_resource_version, get_agent as load_agent, put_agent,
  delete_agent as remove_agent,
}
use opampcommander.Agent.Clone.{clone}
use opampcommander.Agent.Clone.Laws.{clone_idem}

found-clone : (o : Option Agent) (a : Agent) → found o ≡ ok a → clone a ≡ a
unfolding found
found-clone none a h = cc
found-clone (some x) a h = let e : clone x ≡ a = cc in rw (← e) (clone_idem x)

-- A loaded agent is its own clone.
pub clone-load_agent :
    (uid : Uuid) (s : AgentStore) (a : Agent) → load_agent uid s ≡ ok a → clone a ≡ a
clone-load_agent uid s a h =
    found-clone (value_of (find_item uid s.items)) a (sym (get_agent-found uid s) ∙ h)

pub load_agent-remove_agent :
    (k j : Uuid) (s : AgentStore)
    → (remove_agent k s).1 ≡ none
    → load_agent j (remove_agent k s).0
      ≡ (if k == j then err resource_not_exist else load_agent j s)
unfolding remove_agent delete found with_resource_version
load_agent-remove_agent k j s h =
    rw (get_agent-found j (remove_agent k s).0, get_agent-found j s)
      (elim (Option-cases (find_item k s.items)) [
        | inl n ↦
            absurd
              (let e : ◌≡◌ {A = Option Error} (some resource_not_exist) none = rw n at h in cc e)
        | inr (x, q) ↦
            rw (q, find_item-remove_item k j s.items)
              (elim (Bool-cases (k == j)) [ inl p ↦ rw p refl | inr p ↦ rw p refl ])
      ])

pub remove_agent-cases :
    (k : Uuid) (s : AgentStore)
    → (remove_agent k s ≡ (s, some resource_not_exist)) ⊎ ((remove_agent k s).1 ≡ none)
unfolding remove_agent delete
remove_agent-cases k s = elim (Option-cases (find_item k s.items)) [
  | inl n ↦ inl (rw n refl)
  | inr (x, q) ↦ inr (rw q refl)
]

-- The write of an agent, as the reads see it.
pub put_agent-cases :
    (a : Agent) (s : AgentStore)
    → (put_agent a s ≡ (s, (a, some conflict)))
      ⊎ (((put_agent a s).1.1 ≡ none)
          × ((put_agent a s).1.0.metadata.instance_uid ≡ a.metadata.instance_uid)
          × ((j : Uuid)
              → load_agent j (put_agent a s).0 ≡ (
                  if a.metadata.instance_uid == j
                  then ok (clone (put_agent a s).1.0)
                  else load_agent j s)))
unfolding with_resource_version
put_agent-cases a s =
    elim (Bool-cases (stored_version a.metadata.instance_uid s == a.metadata.resource_version)) [
      | inl q ↦
          let h = (nat_beq_iff _ _).0 q in
          inr (
            rw (put_agent-current a s h) refl,
            rw (put_agent-current a s h) refl,
            get_agent-put_agent a s h,
          )
      | inr q ↦ inl (put_agent-stale a s (ground (arith, q)))
    ]
