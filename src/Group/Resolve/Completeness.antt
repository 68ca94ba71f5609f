-- ===== src/Group/Resolve/Completeness.antt =====
-- The declared configs of a group and the collected ones.
use opampcommander.Agent.Types.{AgentConfigFile}
use opampcommander.Group.Types.{AgentGroupAgentRemoteConfig, AgentGroup}
use opampcommander.Base.{
  ℕ, String, ◌≡◌, refl, ◌⊎◌, inl, inr, true, Option, none, some, List, [], ◌∷◌, arith, eq_iff,
  nat_eq, string_eq, Bool-cases, Assoc, elems, lookup, insert, lookup-insert, Result, ok, >>=-ok,
}
use opampcommander.Base.MapLaws.{IsMap, insert-IsMap}
use mathlib.Core.List.{Memᴰ}
use opampcommander.Group.Resolve.{
  Ports, bytes_equal, same_config_file, resolve_remote_config, add_resolved, collect_from,
  collect_group_remote_configs,
}

abbrev pub Resolver : Type 0
Resolver = AgentGroupAgentRemoteConfig → Result (AgentConfigFile × String)

bytes_equal-eq : (xs ys : List ℕ) → bytes_equal xs ys ≡ true → xs ≡ ys
unfolding bytes_equal
bytes_equal-eq [] [] h = refl
bytes_equal-eq [] (y ∷ ys) h = cc
bytes_equal-eq (x ∷ xs) [] h = cc
bytes_equal-eq (x ∷ xs) (y ∷ ys) h = ground (arith, bytes_equal-eq xs ys)

-- The same content type and the same bytes, nil and empty alike.
pub record SameFile (a b : AgentConfigFile) : Type 0 where
  pub content_type : a.content_type ≡ b.content_type
  pub body : elems a.body ≡ elems b.body

pub same_config_file-SameFile : (a b : AgentConfigFile) → same_config_file a b ≡ true → SameFile a b
unfolding same_config_file
same_config_file-SameFile a b h = record {
  content_type = ground (arith, eq_iff a.content_type b.content_type);
  body = bytes_equal-eq (elems a.body) (elems b.body) (ground arith);
}

-- `out` has, under the name that `cfg` resolves to, the file that it resolves to.
pub record Holds (resolve : Resolver) (out : Assoc AgentConfigFile)
    (cfg : AgentGroupAgentRemoteConfig) : Type 0 where
  pub name : String
  pub file : AgentConfigFile
  pub resolves : resolve cfg ≡ ok (file, name)
  pub kept : AgentConfigFile
  pub found : lookup name out ≡ some kept
  pub same : SameFile kept file

-- An entry that stands is never written again.
Grows : Assoc AgentConfigFile → Assoc AgentConfigFile → Type 0
Grows before after =
    (k : String) (f : AgentConfigFile) → lookup k before ≡ some f → lookup k after ≡ some f

-- What one round of the loop does to `out`.
Round :
    Assoc AgentConfigFile
    → AgentConfigFile
    → String
    → Option AgentConfigFile
    → Assoc AgentConfigFile
    → Type 0
Round out file name o next =
    ((o ≡ none) × (next ≡ insert name file out))
    ⊎ ((x : AgentConfigFile) × (o ≡ some x) × SameFile x file × (next ≡ out))

add_resolved-Round :
    (out : Assoc AgentConfigFile) (file : AgentConfigFile) (name : String)
    (o : Option AgentConfigFile) {next : Assoc AgentConfigFile}
    → add_resolved out file name o ≡ ok next
    → Round out file name o next
unfolding add_resolved Round
add_resolved-Round out file name none h = inl (refl, cc)
add_resolved-Round out file name (some x) {next} h = elim (Bool-cases (same_config_file x file)) [
  | inl y ↦ inr (x, refl, same_config_file-SameFile x file y, ground arith)
  | inr n ↦ absurd (ground arith)
]

module _ (out : Assoc AgentConfigFile) (file : AgentConfigFile) (name : String)
    (next : Assoc AgentConfigFile) (r : Round out file name (lookup name out) next) where
  Round-Grows : Grows out next
  unfolding Round Grows
  Round-Grows k f e = elim r [
    | inl (n, q) ↦ rw q (ground (arith, n, lookup-insert name k file out, eq_iff name k))
    | inr (x, s, same, q) ↦ rw q e
  ]

  Round-found : (x : AgentConfigFile) × (lookup name next ≡ some x) × SameFile x file
  unfolding Round
  Round-found = elim r [
    | inl (n, q) ↦ (
      file,
      rw q (ground (arith, lookup-insert name name file out, eq_iff name name)),
      record { content_type = refl; body = refl },
    )
    | inr (x, s, same, q) ↦ (x, rw q s, same)
  ]

  Round-IsMap : IsMap out → IsMap next
  unfolding Round
  Round-IsMap m = elim r [
    | inl (n, q) ↦ rw q (insert-IsMap name file out m)
    | inr (x, s, same, q) ↦ rw q m
  ]

  Round-origin :
      (k : String) (f : AgentConfigFile)
      → lookup k next ≡ some f
      → (lookup k out ≡ some f) ⊎ ((k ≡ name) × (f ≡ file))
  unfolding Round
  Round-origin k f e = elim r [
    | inl (n, q) ↦
        let e' : lookup k (insert name file out) ≡ some f = rw q at e in
        ground (arith, e', lookup-insert name k file out, eq_iff name k)
    | inr (x, s, same, q) ↦ inl (rw q at e)
  ]

-- What a successful run of the loop has done.
record Collected (resolve : Resolver) (cfgs : List AgentGroupAgentRemoteConfig)
    (out result : Assoc AgentConfigFile) : Type 0 where
  grows : Grows out result
  complete : (cfg : AgentGroupAgentRemoteConfig) → Memᴰ cfg cfgs → Holds resolve result cfg
  is_map : IsMap out → IsMap result
  origin :
      (k : String) (f : AgentConfigFile)
      → lookup k result ≡ some f
      → (lookup k out ≡ some f)
        ⊎ ((cfg : AgentGroupAgentRemoteConfig) × Memᴰ cfg cfgs × (resolve cfg ≡ ok (f, k)))

module _ (resolve : Resolver) (cfg : AgentGroupAgentRemoteConfig)
    (cfgs : List AgentGroupAgentRemoteConfig) (out next result : Assoc AgentConfigFile)
    (file : AgentConfigFile) (name : String) (resolves : resolve cfg ≡ ok (file, name))
    (r : Round out file name (lookup name out) next)
    (below : Collected resolve cfgs next result) where
  first_Holds : (c : AgentGroupAgentRemoteConfig) → c ≡ cfg → Holds resolve result c
  unfolding Grows
  first_Holds c e =
      let (x, found, same) = Round-found out file name next r in
      record {
        name = name;
        file = file;
        resolves = rw e resolves;
        kept = x;
        found = below.grows name x found;
        same = same;
      }

  any_Holds : (c : AgentGroupAgentRemoteConfig) → Memᴰ c (cfg ∷ cfgs) → Holds resolve result c
  any_Holds c (Memᴰ.head e) = first_Holds c e
  any_Holds c (Memᴰ.tail m) = below.complete c m

  Collected-cons : Collected resolve (cfg ∷ cfgs) out result
  unfolding Grows
  Collected-cons = record {
    grows = λ k f e. below.grows k f (Round-Grows out file name next r k f e);
    complete = any_Holds;
    is_map = λ m. below.is_map (Round-IsMap out file name next r m);
    origin = λ k f e. elim (below.origin k f e) [
      | inr (c, m, q) ↦ inr (c, Memᴰ.tail m, q)
      | inl p ↦ elim (Round-origin out file name next r k f p) [
        | inl old ↦ inl old
        | inr (ek, ef) ↦ inr (cfg, Memᴰ.head refl, rw (ek, ef) resolves)
      ]
    ];
  }

collect_from-Collected :
    (resolve : Resolver) (cfgs : List AgentGroupAgentRemoteConfig) (out : Assoc AgentConfigFile)
    {result : Assoc AgentConfigFile}
    → collect_from resolve cfgs out ≡ ok result
    → Collected resolve cfgs out result
unfolding collect_from Grows
collect_from-Collected resolve [] out {result} h =
    let e : out ≡ result = cc in
    record {
      grows = λ k f p. rw (← e) p;
      complete = λ c m. elim m [ ];
      is_map = λ m. rw (← e) m;
      origin = λ k f p. inl (rw (← e) at p);
    }
collect_from-Collected resolve (cfg ∷ cfgs) out {result} h =
    let (r, p, h') = >>=-ok _ (resolve cfg) h in
    let (next, q, h'') = >>=-ok _ (add_resolved out r.0 r.1 (lookup r.1 out)) h' in
    Collected-cons resolve cfg cfgs out next result r.0 r.1 p
      (add_resolved-Round out r.0 r.1 (lookup r.1 out) q)
      (collect_from-Collected resolve cfgs next h'')

collected :
    (p : Ports) (g : AgentGroup) (configs : Assoc AgentConfigFile)
    → collect_group_remote_configs p g ≡ ok configs
    → Collected
        (resolve_remote_config p g.metadata.namespace g.metadata.name)
        (elems g.spec.agent_remote_configs)
        []
        configs
unfolding collect_group_remote_configs
collected p g configs h =
    collect_from-Collected (resolve_remote_config p g.metadata.namespace g.metadata.name)
      (elems g.spec.agent_remote_configs) [] h

-- No config is lost: when a group's configs are collected, each one that it declares has resolved,
-- and the result has a file with its content under its name.
pub collect_group_remote_configs-Holds :
    (p : Ports) (g : AgentGroup) (configs : Assoc AgentConfigFile)
    → collect_group_remote_configs p g ≡ ok configs
    → (cfg : AgentGroupAgentRemoteConfig) → Memᴰ cfg (elems g.spec.agent_remote_configs)
    → Holds (resolve_remote_config p g.metadata.namespace g.metadata.name) configs cfg
collect_group_remote_configs-Holds p g configs h cfg m = (collected p g configs h).complete cfg m

-- Nothing is invented: every collected file is what one of the declared configs resolves to.
pub collect_group_remote_configs-origin :
    (p : Ports) (g : AgentGroup) (configs : Assoc AgentConfigFile) (k : String)
    (f : AgentConfigFile)
    → collect_group_remote_configs p g ≡ ok configs
    → lookup k configs ≡ some f
    → (cfg : AgentGroupAgentRemoteConfig) × Memᴰ cfg (elems g.spec.agent_remote_configs)
      × (resolve_remote_config p g.metadata.namespace g.metadata.name cfg ≡ ok (f, k))
unfolding lookup
collect_group_remote_configs-origin p g configs k f h e =
    elim ((collected p g configs h).origin k f e) [
      | inl q ↦ let q' : ◌≡◌ {A = Option AgentConfigFile} none (some f) = q in absurd (cc q')
      | inr o ↦ o
    ]

pub collect_group_remote_configs-IsMap :
    (p : Ports) (g : AgentGroup) (configs : Assoc AgentConfigFile)
    → collect_group_remote_configs p g ≡ ok configs
    → IsMap configs
collect_group_remote_configs-IsMap p g configs h = (collected p g configs h).is_map tt
