-- ===== src/Access/Granted.antt =====
-- service/rbac.go: who is put into which role.
use opampcommander.Base.{
  ◌≡◌, refl, sym, ◌∙◌, subst, ◌≢◌, ◌↔◌, ◌⊎◌, inl, inr, true, false, Option, none, some, List, [],
  ◌∷◌, ◌++◌, eq_iff, ◌==◌, nat_eq, string_eq, Bool-cases, Option-cases, Assoc, lookup, ok,
}
use mathlib.Core.List.{Memᴰ}
use opampcommander.Base.Members.{mem-append, append_left, append_right}
use opampcommander.Access.Roles.{Role}
use opampcommander.Access.Users.{RoleBinding, User, matches_user, any_names}
use opampcommander.Access.Rbac.{
  RbacService, GroupingPolicy, index_users, grouping, all_grouped, by_default,
  default_role_groupings, of_role, binding_groupings, bound_groupings, collect_grouping_policies,
}
use opampcommander.Access.Groupings.{
  OwnEmails, index_users-found, lookup-index_users, subject_groupings-Named,
  Named-subject_groupings,
}

module _ (svc : RbacService) (roles : Assoc Role) (us : List User) where
  -- The default role, in the default namespace.
  pub record ByDefault (g : GroupingPolicy) : Type 0 where
    pub role : Role
    pub user : User
    pub is_default : lookup svc.default_role roles ≡ some role
    pub listed : Memᴰ user us
    pub granted : g ≡ grouping svc user role svc.default_namespace

  -- The role that the binding names, in the binding's namespace, to a user that it matches.
  pub record ByBinding (b : RoleBinding) (g : GroupingPolicy) : Type 0 where
    pub role : Role
    pub user : User
    pub is_bound : lookup b.role_ref.name roles ≡ some role
    pub listed : Memᴰ user us
    pub matched : matches_user b (some user) ≡ true
    pub granted : g ≡ grouping svc user role b.metadata.namespace

  all_grouped-mem :
      (r : Role) (vs : List User) (g : GroupingPolicy)
      → Memᴰ g (all_grouped svc r vs)
      → (u : User) × (Memᴰ u vs × (g ≡ grouping svc u r svc.default_namespace))
  unfolding all_grouped
  all_grouped-mem r [] g m = elim m [ ]
  all_grouped-mem r (v ∷ vs) g (Memᴰ.head e) = (v, (Memᴰ.head refl, e))
  all_grouped-mem r (v ∷ vs) g (Memᴰ.tail t) =
      let (u, (m, e)) = all_grouped-mem r vs g t in (u, (Memᴰ.tail m, e))

  mem-all_grouped :
      (r : Role) (vs : List User) (u : User)
      → Memᴰ u vs
      → Memᴰ (grouping svc u r svc.default_namespace) (all_grouped svc r vs)
  unfolding all_grouped
  mem-all_grouped r [] u m = elim m [ ]
  mem-all_grouped r (v ∷ vs) u (Memᴰ.head e) = rw e (Memᴰ.head refl)
  mem-all_grouped r (v ∷ vs) u (Memᴰ.tail t) = Memᴰ.tail (mem-all_grouped r vs u t)

  default_role_groupings-ByDefault :
      (g : GroupingPolicy) → Memᴰ g (default_role_groupings svc roles us) → ByDefault g
  unfolding default_role_groupings by_default
  default_role_groupings-ByDefault g m = elim (Option-cases (lookup svc.default_role roles)) [
    | inl n ↦ let f : Memᴰ g [] = rw n at m in elim f [ ]
    | inr (r, s) ↦
        let (u, (l, e)) = all_grouped-mem r us g (rw s at m) in
        record { role = r; user = u; is_default = s; listed = l; granted = e }
  ]

  ByDefault-default_role_groupings :
      (g : GroupingPolicy) → ByDefault g → Memᴰ g (default_role_groupings svc roles us)
  unfolding default_role_groupings by_default
  ByDefault-default_role_groupings g d =
      rw (d.granted, d.is_default) (mem-all_grouped d.role us d.user d.listed)

  matches_user-any_names :
      (b : RoleBinding) (u : User)
      → matches_user b (some u) ≡ true
      → (u.spec.email ≢ "") × (any_names u.spec.email b.subjects ≡ true)
  unfolding matches_user
  matches_user-any_names b u h = elim (Bool-cases (u.spec.email == "")) [
    | inl y ↦ absurd (let f : false ≡ true = rw y at h in cc f)
    | inr n ↦ (λ z. cc ((eq_iff u.spec.email "").1 z, n), rw n at h)
  ]

  any_names-matches_user :
      (b : RoleBinding) (u : User)
      → u.spec.email ≢ ""
      → any_names u.spec.email b.subjects ≡ true
      → matches_user b (some u) ≡ true
  unfolding matches_user
  any_names-matches_user b u ne h = elim (Bool-cases (u.spec.email == "")) [
    | inl y ↦ absurd (ne ((eq_iff u.spec.email "").0 y))
    | inr n ↦ rw (n, h) refl
  ]

  binding_groupings-ByBinding :
      (b : RoleBinding) (g : GroupingPolicy)
      → Memᴰ g (binding_groupings svc b roles (index_users us []))
      → ByBinding b g
  unfolding binding_groupings of_role lookup
  binding_groupings-ByBinding b g m = elim (Option-cases (lookup b.role_ref.name roles)) [
    | inl n ↦ let f : Memᴰ g [] = rw n at m in elim f [ ]
    | inr (r, s) ↦
        let (e, (u, (n, (l, is)))) =
          subject_groupings-Named svc r b.metadata.namespace (index_users us []) b.subjects g
            (rw s at m) in
        elim (index_users-found us [] e u l) [
          | inl (mem, (same, ne)) ↦ record {
            role = r;
            user = u;
            is_bound = s;
            listed = mem;
            matched = any_names-matches_user b u (λ z. ne (sym same ∙ z)) (rw same n);
            granted = is;
          }
          | inr z ↦ absurd (let f : ◌≡◌ {A = Option User} none (some u) = z in cc f)
        ]
  ]

  ByBinding-binding_groupings :
      (b : RoleBinding) (g : GroupingPolicy)
      → OwnEmails us
      → ByBinding b g
      → Memᴰ g (binding_groupings svc b roles (index_users us []))
  unfolding binding_groupings of_role
  ByBinding-binding_groupings b g own d =
      let (ne, n) = matches_user-any_names b d.user d.matched in
      rw (d.granted, d.is_bound)
        (Named-subject_groupings svc d.role b.metadata.namespace (index_users us []) b.subjects
          d.user.spec.email d.user n (lookup-index_users us d.user own d.listed ne))

  abbrev pub Bound : List RoleBinding → GroupingPolicy → Type 0
  Bound bs g = (b : RoleBinding) × (Memᴰ b bs × ByBinding b g)

  bound_groupings-Bound :
      (bs : List RoleBinding) (g : GroupingPolicy)
      → Memᴰ g (bound_groupings svc bs roles (index_users us []))
      → Bound bs g
  unfolding bound_groupings
  bound_groupings-Bound [] g m = elim m [ ]
  bound_groupings-Bound (b ∷ bs) g m = elim (mem-append g _ _ m) [
    | inl l ↦ (b, (Memᴰ.head refl, binding_groupings-ByBinding b g l))
    | inr t ↦ let (c, (at, d)) = bound_groupings-Bound bs g t in (c, (Memᴰ.tail at, d))
  ]

  Bound-bound_groupings :
      (bs : List RoleBinding) (b : RoleBinding) (g : GroupingPolicy)
      → OwnEmails us
      → Memᴰ b bs
      → ByBinding b g
      → Memᴰ g (bound_groupings svc bs roles (index_users us []))
  unfolding bound_groupings
  Bound-bound_groupings [] b g own m d = elim m [ ]
  Bound-bound_groupings (c ∷ bs) b g own (Memᴰ.head e) d =
      append_left g _ _ (ByBinding-binding_groupings c g own (subst (λ x. ByBinding x g) e d))
  Bound-bound_groupings (c ∷ bs) b g own (Memᴰ.tail t) d =
      append_right g _ _ (Bound-bound_groupings bs b g own t d)

  -- Collecting the groupings succeeds where the bindings and the users can be listed, and puts a
  -- user into a role in a namespace exactly where it is the default role in the default namespace,
  -- or one of the bindings matches the user, as MatchesUser tells, names the role and stands in the
  -- namespace. No two users share an email other than the empty one.
  pub collect_grouping_policies_iff :
      (bs : List RoleBinding)
      → svc.list_role_bindings ≡ ok bs
      → svc.list_users ≡ ok us
      → OwnEmails us
      → (gs : List GroupingPolicy) × ((collect_grouping_policies svc roles ≡ ok gs)
          × ((g : GroupingPolicy) → Memᴰ g gs ↔ (ByDefault g ⊎ Bound bs g)))
  unfolding collect_grouping_policies
  collect_grouping_policies_iff bs hb hu own = (
    default_role_groupings svc roles us ++ bound_groupings svc bs roles (index_users us []),
    (
      rw (hb, hu) refl,
      λ g. (
        λ m. elim (mem-append g _ _ m) [
          | inl l ↦ inl (default_role_groupings-ByDefault g l)
          | inr r ↦ inr (bound_groupings-Bound bs g r)
        ],
        λ s. elim s [
          | inl d ↦ append_left g _ _ (ByDefault-default_role_groupings g d)
          | inr (b, (at, d)) ↦ append_right g _ _ (Bound-bound_groupings bs b g own at d)
        ],
      ),
    ),
  )
