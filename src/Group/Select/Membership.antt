-- ===== src/Group/Select/Membership.antt =====
-- The groups that govern an agent, without the loops.
use opampcommander.Base.{
  String, ◌≡◌, refl, ◌↔◌, inl, inr, Bool, true, false, some, List, [], ◌∷◌, arith, eq_iff,
  if◌then◌else◌, nat_eq, string_eq, Bool-cases, elems, lookup,
}
use opampcommander.Base.Members.{in_cons}
use opampcommander.Base.MapLaws.{IsMap, contains_all_sound, contains_all_complete}
use opampcommander.Agent.Types.{Agent}
use opampcommander.Group.Types.{AgentSelector, AgentGroup}
use mathlib.Core.List.{Memᴰ}
use opampcommander.Group.Deletion.{is_deleted}
use opampcommander.Group.Select.{matches_selector, governs, get_agent_groups_for_agent}

-- Every attribute that the selector names stands in the agent's description with its value.
pub record Selects (a : Agent) (s : AgentSelector) : Type 0 where
  pub identifying :
      (k v : String)
      → lookup k (elems s.identifying_attributes) ≡ some v
      → lookup k (elems a.metadata.description.identifying_attributes) ≡ some v
  pub non_identifying :
      (k v : String)
      → lookup k (elems s.non_identifying_attributes) ≡ some v
      → lookup k (elems a.metadata.description.non_identifying_attributes) ≡ some v

-- A selector whose two maps have no key twice, as every Go map.
abbrev pub IsSelector : AgentSelector → Type 0
IsSelector s = IsMap (elems s.identifying_attributes) × IsMap (elems s.non_identifying_attributes)

both : (b c : Bool) → (if b then c else false) ≡ true → (b ≡ true) × (c ≡ true)
both b c h = ground arith

pub matches_selector-Selects :
    (a : Agent) (s : AgentSelector) → matches_selector a s ≡ true → Selects a s
unfolding matches_selector
matches_selector-Selects a s h =
    let (p, q) = both _ _ h in
    record {
      identifying = λ k v. contains_all_sound _ _ k v p;
      non_identifying = λ k v. contains_all_sound _ _ k v q;
    }

pub Selects-matches_selector :
    (a : Agent) (s : AgentSelector) → IsSelector s → Selects a s → matches_selector a s ≡ true
unfolding matches_selector
Selects-matches_selector a s m h =
    rw (contains_all_complete _ _ m.0 h.identifying)
      (contains_all_complete _ _ m.1 h.non_identifying)

pub record Governs (g : AgentGroup) (a : Agent) : Type 0 where
  pub live : is_deleted g ≡ false
  pub same_namespace : g.metadata.namespace ≡ a.metadata.namespace
  pub selects : Selects a g.spec.selector

pub governs-Governs : (g : AgentGroup) (a : Agent) → governs g a ≡ true → Governs g a
unfolding governs
governs-Governs g a h = record {
  live = ground arith;
  same_namespace = ground (arith, eq_iff g.metadata.namespace a.metadata.namespace);
  selects = matches_selector-Selects a g.spec.selector (ground arith);
}

pub Governs-governs :
    (g : AgentGroup) (a : Agent) → IsSelector g.spec.selector → Governs g a → governs g a ≡ true
unfolding governs
Governs-governs g a m h = ground (
  arith,
  h.live,
  h.same_namespace,
  eq_iff g.metadata.namespace a.metadata.namespace,
  Selects-matches_selector a g.spec.selector m h.selects,
)

pub get_agent_groups_for_agent-mem :
    (g : AgentGroup) (groups : List AgentGroup) (a : Agent)
    → Memᴰ g (get_agent_groups_for_agent groups a)
    → Memᴰ g groups × (governs g a ≡ true)
unfolding get_agent_groups_for_agent
get_agent_groups_for_agent-mem g [] a h = elim h [ ]
get_agent_groups_for_agent-mem g (x ∷ groups) a h =
    let below = get_agent_groups_for_agent-mem g groups a in
    elim (Bool-cases (governs x a)) [
      | inl y ↦ elim (in_cons (rw y at h)) [
        | inl e ↦ (Memᴰ.head e, rw e y)
        | inr m ↦ (Memᴰ.tail (below m).0, (below m).1)
      ]
      | inr n ↦
          let m : Memᴰ g (get_agent_groups_for_agent groups a) = rw n at h in
          (Memᴰ.tail (below m).0, (below m).1)
    ]

pub mem-get_agent_groups_for_agent :
    (g : AgentGroup) (groups : List AgentGroup) (a : Agent)
    → Memᴰ g groups
    → governs g a ≡ true
    → Memᴰ g (get_agent_groups_for_agent groups a)
unfolding get_agent_groups_for_agent
mem-get_agent_groups_for_agent g [] a m y = elim m [ ]
mem-get_agent_groups_for_agent g (x ∷ groups) a (Memᴰ.head e) y = rw (← e, y) (Memᴰ.head refl)
mem-get_agent_groups_for_agent g (x ∷ groups) a (Memᴰ.tail m) y =
    let found = mem-get_agent_groups_for_agent g groups a m y in
    elim (Bool-cases (governs x a)) [ inl p ↦ rw p (Memᴰ.tail found) | inr n ↦ rw n found ]

-- The groups that are found for an agent are the listed ones that are not deleted, stand in the
-- agent's namespace and select it by both kinds of attributes; the selectors are maps.
pub get_agent_groups_for_agent_iff :
    (g : AgentGroup) (groups : List AgentGroup) (a : Agent)
    → IsSelector g.spec.selector
    → Memᴰ g (get_agent_groups_for_agent groups a) ↔ (Memᴰ g groups × Governs g a)
get_agent_groups_for_agent_iff g groups a s = (
  λ h. let (m, y) = get_agent_groups_for_agent-mem g groups a h in (m, governs-Governs g a y),
  λ h. mem-get_agent_groups_for_agent g groups a h.0 (Governs-governs g a s h.1),
)
