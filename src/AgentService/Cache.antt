-- ===== src/AgentService/Cache.antt =====
-- The cache of the package ttlcache, as the agent service uses it.
use opampcommander.Base.{◌≡◌, Option, none, some, if◌then◌else◌, ◌==◌, nat_eq}
use opampcommander.Agent.Types.{Uuid, Agent}
use opampcommander.Agent.Health.{Time}

-- `get` may renew an entry, and finds nothing once an entry has expired or was evicted; `set` may
-- evict others. `held` is the value an entry has, expired or not: only a `set` of its key gives it.
pub record TtlCache (C : Type 0) : Type 0 where
  pub get : Time → Uuid → C → C × Option Agent
  pub set : Time → Uuid → Agent → C → C
  pub remove : Uuid → C → C
  pub remove_all : C → C
  pub held : Uuid → C → Option Agent
  pub get_held :
      (now : Time) (k : Uuid) (c : C) (v : Agent) → (get now k c).1 ≡ some v → held k c ≡ some v
  pub held_get :
      (now : Time) (k j : Uuid) (c : C) (v : Agent)
      → held j (get now k c).0 ≡ some v
      → held j c ≡ some v
  pub held_set :
      (now : Time) (k j : Uuid) (a : Agent) (c : C) (v : Agent)
      → held j (set now k a c) ≡ some v
      → (if k == j then some a else held j c) ≡ some v
  pub held_remove :
      (k j : Uuid) (c : C) (v : Agent)
      → held j (remove k c) ≡ some v
      → (if k == j then none else held j c) ≡ some v
  pub held_remove_all : (j : Uuid) (c : C) → held j (remove_all c) ≡ none
