-- ===== src/Group/Deletion/Marked.antt =====
-- agentgroup.go: what is read of a group that has been marked deleted.
use opampcommander.Base.{
  String, ◌≡◌, refl, ap, inl, inr, true, some, List, [], ◌∷◌, arith, ◌==◌, nat_eq, string_eq,
  Bool-cases, elems,
}
use opampcommander.Agent.Types.{Condition}
use opampcommander.Agent.Health.{Time}
use opampcommander.Group.Types.{AgentGroup, condition_type_deleted}
use opampcommander.Group.Deletion.{
  find_true, is_deleted, delete_conditions, mark_deleted, get_deleted_at, get_deleted_by, time_of,
  reason_of,
}

-- The condition that the deletion leaves is the one that is found.
find_true-delete_conditions :
    (t : Time) (by : String) (cs : List Condition)
    → (c : Condition) × (find_true condition_type_deleted (delete_conditions t by cs) ≡ some c)
      × (c.last_transition_time ≡ t)
      × (c.reason ≡ by)
unfolding find_true delete_conditions
find_true-delete_conditions t by [] = (_, refl, refl, refl)
find_true-delete_conditions t by (c ∷ cs) =
    let (d, found, time, reason) = find_true-delete_conditions t by cs in
    elim (Bool-cases (c.type == condition_type_deleted)) [
      | inl q ↦ rw (q, q) (_, refl, refl, refl)
      | inr q ↦ rw (q, q) (d, found, time, reason)
    ]

module _ (t : Time) (by : String) (g : AgentGroup) where
  -- A group that was marked deleted is deleted, and says when and by whom, whatever conditions and
  -- deletion time it had; this holds for the zero time too.
  pub is_deleted-mark_deleted :
      (is_deleted (mark_deleted t by g) ≡ true)
      × (get_deleted_at (mark_deleted t by g) ≡ some t)
      × (get_deleted_by (mark_deleted t by g) ≡ some by)
  unfolding is_deleted mark_deleted get_deleted_at get_deleted_by time_of reason_of
  is_deleted-mark_deleted =
      let (d, found, time, reason) = find_true-delete_conditions t by (elems g.status.conditions) in
      (ground (arith, found), ground (arith, found, time), rw found (ap some reason))
