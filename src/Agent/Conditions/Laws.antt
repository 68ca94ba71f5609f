-- ===== src/Agent/Conditions/Laws.antt =====
-- agent.go: the conditions of an agent after one of them was written.
use opampcommander.Base.{
  String, ◌≡◌, refl, inl, inr, Option, none, some, List, [], ◌∷◌, arith, eq_iff, if◌then◌else◌,
  ◌==◌, nat_eq, string_eq, Bool-cases, elems,
}
use opampcommander.Agent.Types.{Condition, Agent}
use opampcommander.Agent.Health.{Time}
use opampcommander.Agent.Health.{Time}
use opampcommander.Agent.Conditions.{refresh, upsert, find, set_condition_at, get_condition}

-- The condition that a write leaves in place of the one that was there.
unfoldable pub written : String → String → Time → String → String → Option Condition → Condition
written type status now reason message none = record {
  type = type;
  last_transition_time = now;
  status = status;
  reason = reason;
  message = message;
}
written type status now reason message (some c) = record {
  type = c.type;
  last_transition_time = if c.status == status then c.last_transition_time else now;
  status = status;
  reason = reason;
  message = message;
}

module _ (type status : String) (now : Time) (reason message : String) where
  pub find-upsert :
      (j : String) (cs : List Condition)
      → find j (upsert type status now reason message cs) ≡ (
          if type == j
          then some (written type status now reason message (find type cs))
          else find j cs)
  unfolding find upsert written refresh
  find-upsert j [] = refl
  find-upsert j (c ∷ cs) =
      ground (arith, find-upsert j cs, eq_iff c.type type, eq_iff c.type j, eq_iff type j)

  -- After a condition has been set, a lookup of its type finds the new status, reason and message,
  -- with the time of the write unless the status stood before; every other type is as it was.
  pub get_condition-set_condition_at :
      (a : Agent) (j : String)
      → get_condition (set_condition_at type status now reason message a) j ≡ (
          if type == j
          then some (written type status now reason message (get_condition a type))
          else get_condition a j)
  unfolding get_condition set_condition_at
  get_condition-set_condition_at a j = find-upsert j (elems a.status.conditions)

-- No type has two conditions.
unfoldable pub OneOfEach : List Condition → Type 0
OneOfEach [] = Unit
OneOfEach (c ∷ cs) = (find c.type cs ≡ none) × OneOfEach cs

upsert-OneOfEach :
    (type status : String) (now : Time) (reason message : String) (cs : List Condition)
    → OneOfEach cs
    → OneOfEach (upsert type status now reason message cs)
unfolding upsert find OneOfEach refresh
upsert-OneOfEach type status now reason message [] h = (refl, tt)
upsert-OneOfEach type status now reason message (c ∷ cs) h = elim (Bool-cases (c.type == type)) [
  | inl q ↦ rw q h
  | inr q ↦ rw q (
    ground (
      arith,
      find-upsert type status now reason message c.type cs,
      h.0,
      q,
      eq_iff type c.type,
      eq_iff c.type type,
    ),
    upsert-OneOfEach type status now reason message cs h.1,
  )
]

-- Setting a condition never leaves two conditions of one type where there were none.
pub set_condition_at-OneOfEach :
    (type status : String) (now : Time) (reason message : String) (a : Agent)
    → OneOfEach (elems a.status.conditions)
    → OneOfEach (elems (set_condition_at type status now reason message a).status.conditions)
unfolding set_condition_at
set_condition_at-OneOfEach type status now reason message a h =
    upsert-OneOfEach type status now reason message (elems a.status.conditions) h
