-- ===== src/Server/Leader.antt =====
-- service/server.go: the leader among the servers that are alive.
use opampcommander.Base.{
  ℕ, String, ◌≡◌, refl, ap, ◌∙◌, ◌≢◌, inl, inr, Bool, true, false, List, [], ◌∷◌, eq_iff, ◌==◌,
  nat_eq, string_eq, Bool-cases, string_ltb, string_ltb-total, string_ltb_trans, string_ltb_irrefl,
  no_current_server_id, Result, ok, err,
}
use mathlib.Core.List.{Memᴰ}
use opampcommander.Agent.Health.{Time}
use opampcommander.Server.{Server, Servers, none_below, list_servers, is_leader}

none_below-mem :
    (id : String) (s : Server) (ss : List Server)
    → none_below id ss ≡ true
    → Memᴰ s ss
    → string_ltb s.id id ≡ false
unfolding none_below
none_below-mem id s [] h m = elim m [ ]
none_below-mem id s (r ∷ ss) h (Memᴰ.head e) = elim (Bool-cases (string_ltb r.id id)) [
  | inl q ↦ absurd (let f : false ≡ true = rw q at h in cc f)
  | inr q ↦ rw e q
]
none_below-mem id s (r ∷ ss) h (Memᴰ.tail m) = elim (Bool-cases (string_ltb r.id id)) [
  | inl q ↦ absurd (let f : false ≡ true = rw q at h in cc f)
  | inr q ↦ none_below-mem id s ss (rw q at h) m
]

-- Below the least there is less.
none_below-lower :
    (id lower : String) (ss : List Server)
    → string_ltb lower id ≡ true
    → none_below id ss ≡ true
    → none_below lower ss ≡ true
unfolding none_below
none_below-lower id lower [] h n = refl
none_below-lower id lower (r ∷ ss) h n = elim (Bool-cases (string_ltb r.id lower)) [
  | inl q ↦ absurd (let f : false ≡ true = rw (string_ltb_trans r.id lower id q h) at n in cc f)
  | inr q ↦ elim (Bool-cases (string_ltb r.id id)) [
    | inl p ↦ absurd (let f : false ≡ true = rw p at n in cc f)
    | inr p ↦ rw q (none_below-lower id lower ss h (rw p at n))
  ]
]

least :
    (s : Server) (ss : List Server)
    → (m : Server) × (Memᴰ m (s ∷ ss) × (none_below m.id (s ∷ ss) ≡ true))
unfolding none_below
least s [] = (s, (Memᴰ.head refl, rw (string_ltb_irrefl s.id) refl))
least s (r ∷ ss) =
    let (m, (mem, n)) = least r ss in
    elim (Bool-cases (string_ltb s.id m.id)) [
      | inl q ↦ (
        s,
        (Memᴰ.head refl, rw (string_ltb_irrefl s.id) (none_below-lower m.id s.id (r ∷ ss) q n)),
      )
      | inr q ↦ (m, (Memᴰ.tail mem, rw q n))
    ]

is_leader-named :
    (id : String) (now : Time) (timeout : ℕ) (servers : Servers)
    → id ≢ ""
    → is_leader id now timeout servers ≡ ok (none_below id (list_servers now timeout servers))
unfolding is_leader
is_leader-named id now timeout servers h = elim (Bool-cases (id == "")) [
  | inl q ↦ absurd (h ((eq_iff id "").0 q))
  | inr q ↦ rw q refl
]

leader_below :
    (id : String) (now : Time) (timeout : ℕ) (servers : Servers)
    → is_leader id now timeout servers ≡ ok true
    → none_below id (list_servers now timeout servers) ≡ true
unfolding is_leader
leader_below id now timeout servers h = elim (Bool-cases (id == "")) [
  | inl q ↦
      absurd
        (let f : ◌≡◌ {A = Result Bool} (err no_current_server_id) (ok true) = rw q at h in cc f)
  | inr q ↦
      let f : ok (none_below id (list_servers now timeout servers)) ≡ ok true = rw q at h in cc f
]

-- Of the servers that are alive, by one reading of the store and the clock, at most one leads.
pub is_leader_unique :
    (a b : Server) (now : Time) (timeout : ℕ) (servers : Servers)
    → Memᴰ a (list_servers now timeout servers)
    → Memᴰ b (list_servers now timeout servers)
    → is_leader a.id now timeout servers ≡ ok true
    → is_leader b.id now timeout servers ≡ ok true
    → a.id ≡ b.id
is_leader_unique a b now timeout servers ma mb la lb =
    string_ltb-total a.id b.id
      (none_below-mem b.id a _ (leader_below b.id now timeout servers lb) ma)
      (none_below-mem a.id b _ (leader_below a.id now timeout servers la) mb)

-- While some server is alive and none that is has an empty ID, a server that is alive leads.
pub is_leader_exists :
    (now : Time) (timeout : ℕ) (servers : Servers)
    → list_servers now timeout servers ≢ []
    → ((s : Server) → Memᴰ s (list_servers now timeout servers) → s.id ≢ "")
    → (s : Server) × (Memᴰ s (list_servers now timeout servers)
        × (is_leader s.id now timeout servers ≡ ok true))
is_leader_exists now timeout servers alive named =
    let (m, (mem, n)) = least_of (list_servers now timeout servers) alive in
    (m, (mem, is_leader-named m.id now timeout servers (named m mem) ∙ ap ok n))
  where
    least_of :
        (ss : List Server) → ss ≢ [] → (m : Server) × (Memᴰ m ss × (none_below m.id ss ≡ true))
    least_of [] h = absurd (h refl)
    least_of (s ∷ ss) h = least s ss
