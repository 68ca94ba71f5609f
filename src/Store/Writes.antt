-- ===== src/Store/Writes.antt =====
-- The repository of agents under any sequence of its writes.
use opampcommander.Base.{
  ℕ, pos, suc, ◌+◌, ◌≤◌, ◌<◌, ◌≡◌, refl, inl, inr, Bool, false, Option, none, some, List, [], ◌∷◌,
  arith, Eq, nat_eq, string_eq, Option-cases, length, Error, ok,
}
use opampcommander.Agent.Types.{Uuid, Agent}
use opampcommander.Agent.Clone.{clone}
use opampcommander.Store.Ops.{
  Store, Kind, find_item, snapshot, cas_put, delete, u64_mod, new_store, add_item, Token,
}
use opampcommander.Store.Pages.Walk.{walk, walk-snapshot}
use opampcommander.Store.Invariant.{IsValid, cas_put-IsValid, delete-IsValid}
use opampcommander.Store.Agents.{
  AgentStore, agent_kind, new_agent_repository, resource_version, with_resource_version,
  next_version, written_back, put_agent, delete_agent,
}

-- A write of any client, as the repository's lock orders them.
pub data Write : Type 0 where
  put_of : Agent → Write
  delete_of : Uuid → Write

unfoldable pub apply_write : Write → AgentStore → AgentStore
unfolding put_agent delete_agent
apply_write (Write.put_of a) s = (put_agent a s).0
apply_write (Write.delete_of uid) s = (delete_agent uid s).0

unfoldable pub run : List Write → AgentStore → AgentStore
unfolding apply_write
run [] s = s
run (w ∷ ws) s = run ws (apply_write w s)

module _ {ℓ} {K V : Type ℓ} ⦃e : Eq K⦄ where
  next_seq-add_item : (k : K) (v : V) (s : Store K V) → (add_item k v s).next_seq ≤ s.next_seq + 1
  unfolding add_item
  next_seq-add_item k v s = omega arith

  next_seq-cas_put :
      (kind : Kind V) (k : K) (v : V) (expected : ℕ) (version_of : V → ℕ) (s : Store K V)
      → (cas_put kind k v expected version_of s).0.next_seq ≤ s.next_seq + 1
  unfolding cas_put
  next_seq-cas_put kind k v expected version_of s = elim (Option-cases (find_item k s.items)) [
    | inl n ↦ ground (arith, n, next_seq-add_item k (kind.clone v) s)
    | inr (x, q) ↦ ground (arith, q)
  ]

  next_seq-delete : (k : K) (s : Store K V) → (delete k s).0.next_seq ≡ s.next_seq
  unfolding delete
  next_seq-delete k s = ground arith

written_back-0 : (a : Agent) (n : ℕ) (r : AgentStore × Option Error) → (written_back a n r).0 ≡ r.0
unfolding written_back
written_back-0 a n (s, none) = refl
written_back-0 a n (s, some e) = refl

put_agent-0 :
    (a : Agent) (s : AgentStore)
    → (put_agent a s).0
      ≡ (cas_put agent_kind a.metadata.instance_uid
          (with_resource_version (next_version a.metadata.resource_version) (clone a))
          a.metadata.resource_version
          resource_version
          s).0
unfolding put_agent
put_agent-0 a s = written_back-0 a _ _

apply_write-IsValid :
    (w : Write) (s : AgentStore) → IsValid s → s.next_seq + 1 < u64_mod → IsValid (apply_write w s)
unfolding apply_write delete_agent
apply_write-IsValid (Write.put_of a) s h b = rw (put_agent-0 a s) (
    cas_put-IsValid agent_kind a.metadata.instance_uid _ a.metadata.resource_version
      resource_version s h b)
apply_write-IsValid (Write.delete_of uid) s h b = delete-IsValid uid s h

next_seq-apply_write : (w : Write) (s : AgentStore) → (apply_write w s).next_seq ≤ s.next_seq + 1
unfolding apply_write delete_agent
next_seq-apply_write (Write.put_of a) s = rw (put_agent-0 a s) (
    next_seq-cas_put agent_kind a.metadata.instance_uid _ a.metadata.resource_version
      resource_version s)
next_seq-apply_write (Write.delete_of uid) s = omega (arith, next_seq-delete uid s)

run-IsValid :
    (ws : List Write) (s : AgentStore)
    → IsValid s
    → s.next_seq + length ws < u64_mod
    → IsValid (run ws s)
unfolding run
run-IsValid [] s h b = h
run-IsValid (w ∷ ws) s h b =
    run-IsValid ws (apply_write w s) (apply_write-IsValid w s h (omega (arith, b)))
      (omega (arith, b, next_seq-apply_write w s))

-- After fewer than 2^64 - 1 writes of any clients to a new repository, accepted or not, each UID has
-- at most one agent, no two agents share a sequence, and the next sequence is above all of them.
pub run-new_agent_repository-IsValid :
    (ws : List Write) → length ws + 1 < u64_mod → IsValid (run ws new_agent_repository)
unfolding new_agent_repository new_store
run-new_agent_repository-IsValid ws b =
    run-IsValid ws new_agent_repository
      (record { keys_differ = tt; seqs_differ = tt; seqs_below = tt }) (omega (arith, b))

-- After any fewer than 2^64 - 1 writes, a client that follows the continue tokens of `list` with a
-- positive limit, while nobody writes, reads each agent that the filter accepts once and in the
-- order of the snapshot.
pub walk-run :
    (ws : List Write) (filter : Agent → Bool) (n : ℕ)
    → length ws + 1 < u64_mod
    → walk
        (suc (length (snapshot agent_kind false filter (run ws new_agent_repository))))
        agent_kind
        (pos (suc n))
        false
        filter
        (run ws new_agent_repository)
        Token.empty
      ≡ some (ok (snapshot agent_kind false filter (run ws new_agent_repository)))
walk-run ws filter n b =
    walk-snapshot agent_kind false filter (run ws new_agent_repository) n
      (run-new_agent_repository-IsValid ws b).seqs_differ
