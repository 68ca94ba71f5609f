-- ===== src/Store/Versions.antt =====
-- agent.go of the repository: optimistic concurrency of its writes.
use opampcommander.Base.{
  ℕ, ◌≡◌, refl, sym, ap, ◌∙◌, ◌≢◌, inl, inr, Option, none, some, arith, nat_beq_iff, if◌then◌else◌,
  ◌==◌, Eq, nat_eq, string_eq, Bool-cases, Option-cases, Error, resource_not_exist, conflict,
  Result, ok, err,
}
use opampcommander.Agent.Types.{Uuid, Agent}
use opampcommander.Agent.Clone.{clone, clone_metadata}
use opampcommander.Agent.Clone.Laws.{clone_idem}
use opampcommander.Store.Ops.{Store, Item, Kind, find_item, add_item, get, visible, cas_put}
use opampcommander.Store.Lookup.{find_item-set_value}
use opampcommander.Store.Agents.{
  AgentStore, agent_kind, resource_version, with_resource_version, get_agent, next_version,
  written_back, put_agent,
}

-- The version under a key, 0 when it has no item.
abbrev pub version_of_item {ℓ} : {V : Type ℓ} → (V → ℕ) → Option (Item V) → ℕ
version_of_item f none = 0
version_of_item f (some x) = f x.value

abbrev pub value_of {ℓ} : {V : Type ℓ} → Option (Item V) → Option V
value_of none = none
value_of (some x) = some x.value

module _ {K V : Type 0} ⦃e : Eq K⦄ (kind : Kind V) (k : K) (v : V) (expected : ℕ)
    (version_of : V → ℕ) (s : Store K V) where
  cas_put-stale :
      version_of_item version_of (find_item k s.items) ≢ expected
      → cas_put kind k v expected version_of s ≡ (s, some conflict)
  unfolding cas_put
  cas_put-stale h = elim (Option-cases (find_item k s.items)) [
    | inl n ↦ ground (arith, h, n)
    | inr (x, q) ↦ ground (arith, h, q)
  ]

  cas_put-current :
      version_of_item version_of (find_item k s.items) ≡ expected
      → (cas_put kind k v expected version_of s).1 ≡ none
  unfolding cas_put
  cas_put-current h = elim (Option-cases (find_item k s.items)) [
    | inl n ↦ ground (arith, h, n)
    | inr (x, q) ↦ ground (arith, h, q)
  ]

  find_item-cas_put :
      (j : K)
      → version_of_item version_of (find_item k s.items) ≡ expected
      → value_of (find_item j (cas_put kind k v expected version_of s).0.items)
        ≡ (if k == j then some (kind.clone v) else value_of (find_item j s.items))
  unfolding cas_put add_item find_item
  find_item-cas_put j h = elim (Option-cases (find_item k s.items)) [
    | inl n ↦ ground (arith, h, n, e.same_iff k j)
    | inr (x, q) ↦
        ground (arith, h, q, e.same_iff k j, find_item-set_value k j (kind.clone v) s.items)
  ]

clone-versioned :
    (n : ℕ) (a : Agent)
    → clone (with_resource_version n (clone a)) ≡ clone (with_resource_version n a)
unfolding with_resource_version clone clone_metadata
clone-versioned n a = ap (with_resource_version n) (clone_idem a)

abbrev pub stored_version : Uuid → AgentStore → ℕ
stored_version uid s = version_of_item resource_version (find_item uid s.items)

clone-with_resource_version :
    (n : ℕ) (a : Agent)
    → clone (clone (with_resource_version n (clone a))) ≡ clone (with_resource_version n a)
clone-with_resource_version n a =
    ap clone (clone-versioned n a) ∙ clone_idem (with_resource_version n a)

unfoldable pub found : Option Agent → Result Agent
found none = err resource_not_exist
found (some a) = ok (clone a)

pub get_agent-found :
    (uid : Uuid) (s : AgentStore) → get_agent uid s ≡ found (value_of (find_item uid s.items))
unfolding get_agent get visible found
get_agent-found uid s = elim (Option-cases (find_item uid s.items)) [
  | inl n ↦ rw n refl
  | inr (x, q) ↦ rw q refl
]

-- An agent loaded at a version that is no longer stored is refused with a conflict; neither the
-- store nor the caller's agent changes.
pub put_agent-stale :
    (a : Agent) (s : AgentStore)
    → stored_version a.metadata.instance_uid s ≢ a.metadata.resource_version
    → put_agent a s ≡ (s, (a, some conflict))
unfolding put_agent
put_agent-stale a s h =
    rw
      (cas_put-stale agent_kind a.metadata.instance_uid
        (with_resource_version (next_version a.metadata.resource_version) (clone a))
        a.metadata.resource_version resource_version s h)
      refl

written_back-none :
    (a : Agent) (n : ℕ) (r : AgentStore × Option Error)
    → r.1 ≡ none
    → written_back a n r ≡ (r.0, (with_resource_version n a, none))
unfolding written_back
written_back-none a n (s, none) h = refl
written_back-none a n (s, some e) h = cc

module _ (a : Agent) (s : AgentStore)
    (h : stored_version a.metadata.instance_uid s ≡ a.metadata.resource_version) where
  to_store : Agent
  to_store = with_resource_version (next_version a.metadata.resource_version) (clone a)

  put_agent-accepted : put_agent a s ≡ (
    (cas_put agent_kind a.metadata.instance_uid to_store a.metadata.resource_version
        resource_version s).0,
    (with_resource_version (next_version a.metadata.resource_version) a, none),
  )
  unfolding put_agent to_store
  put_agent-accepted =
      written_back-none a (next_version a.metadata.resource_version)
        (cas_put agent_kind a.metadata.instance_uid to_store a.metadata.resource_version
          resource_version s)
        (cas_put-current agent_kind a.metadata.instance_uid to_store a.metadata.resource_version
          resource_version s h)

  pub put_agent-current :
      (put_agent a s).1 ≡ (with_resource_version (next_version a.metadata.resource_version) a, none)
  put_agent-current = rw put_agent-accepted refl

  find_item-put_agent :
      (j : Uuid)
      → value_of (find_item j (put_agent a s).0.items) ≡ (
          if a.metadata.instance_uid == j
          then some (clone to_store)
          else value_of (find_item j s.items))
  find_item-put_agent j = rw put_agent-accepted (
      find_item-cas_put agent_kind a.metadata.instance_uid to_store a.metadata.resource_version
        resource_version s j h)

  -- After a write from the stored version, a read of its agent returns the agent that the caller
  -- was left with, as a clone, and a read of any other returns what it returned before.
  pub get_agent-put_agent :
      (j : Uuid)
      → get_agent j (put_agent a s).0
        ≡ (if a.metadata.instance_uid == j then ok (clone (put_agent a s).1.0) else get_agent j s)
  unfolding found to_store
  get_agent-put_agent j =
      rw
        (
          get_agent-found j (put_agent a s).0,
          get_agent-found j s,
          find_item-put_agent j,
          put_agent-accepted,
        )
        (elim (Bool-cases (a.metadata.instance_uid == j)) [
          | inl q ↦
              rw q
                (ap ok (clone-with_resource_version (next_version a.metadata.resource_version) a))
          | inr q ↦ rw q refl
        ])

next_version-≢ : (v : ℕ) → next_version v ≢ v
unfolding next_version
next_version-≢ v = omega arith

version_of_value {ℓ} :
    {V : Type ℓ} (f : V → ℕ) (x : Option (Item V)) (v : V)
    → value_of x ≡ some v
    → version_of_item f x ≡ f v
version_of_value f none v h = cc
version_of_value f (some x) v h = cc

stored_version-put_agent :
    (a : Agent) (s : AgentStore)
    → stored_version a.metadata.instance_uid s ≡ a.metadata.resource_version
    → stored_version a.metadata.instance_uid (put_agent a s).0
      ≡ next_version a.metadata.resource_version
unfolding resource_version with_resource_version clone clone_metadata to_store
stored_version-put_agent a s h =
    version_of_value resource_version (find_item a.metadata.instance_uid (put_agent a s).0.items)
      (clone (to_store a s h))
      (find_item-put_agent a s h a.metadata.instance_uid
        ∙ rw ((nat_beq_iff a.metadata.instance_uid a.metadata.instance_uid).1 refl) refl)

pub put_agent-none :
    (a : Agent) (s : AgentStore)
    → (put_agent a s).1.1 ≡ none
    → stored_version a.metadata.instance_uid s ≡ a.metadata.resource_version
put_agent-none a s h =
    elim (Bool-cases (stored_version a.metadata.instance_uid s == a.metadata.resource_version)) [
      | inl q ↦ (nat_beq_iff _ _).0 q
      | inr q ↦
          let stale = put_agent-stale a s (ground (arith, q)) in
          absurd (cc (sym h ∙ ap (λ (r : AgentStore × (Agent × Option Error)). r.1.1) stale))
    ]

-- Of two agents with one UID that were loaded at the same version, whichever is written second is
-- refused when the first was accepted: no update is lost, and the store keeps the first.
pub put_agent-put_agent :
    (a b : Agent) (s : AgentStore)
    → (put_agent a s).1.1 ≡ none
    → b.metadata.instance_uid ≡ a.metadata.instance_uid
    → b.metadata.resource_version ≡ a.metadata.resource_version
    → put_agent b (put_agent a s).0 ≡ ((put_agent a s).0, (b, some conflict))
put_agent-put_agent a b s accepted u v = put_agent-stale b (put_agent a s).0 (
    rw (u, v, stored_version-put_agent a s (put_agent-none a s accepted))
      (next_version-≢ a.metadata.resource_version))
