-- ===== src/Access/Effective.antt =====
-- service/rbac.go: what a user may do, without the loops.
use opampcommander.Base.{
  String, ◌≡◌, refl, sym, ap, ◌∙◌, ◌↔◌, ◌⊎◌, inl, inr, true, Option, none, some, List, [], ◌∷◌,
  if◌then◌else◌, nat_eq, string_eq, if_both, Bool-cases, Assoc, lookup, Result, ok, err,
}
use opampcommander.Base.MapLaws.{IsMap}
use opampcommander.Base.{HasKey}
use mathlib.Core.List.{Memᴰ}
use opampcommander.Agent.Types.{Uuid}
use opampcommander.Access.Roles.{Permission, Role}
use opampcommander.Access.Users.{RoleBinding, User, matches_user}
use opampcommander.Access.Rbac.{
  RbacService, values_of, collect_found, collect_bindings, get_user_permissions,
}
use opampcommander.Access.Permissions.{
  Named, values_of-lookup, lookup-values_of, collect_role_permissions-Named,
  collect_role_permissions-kept, Named-collect_role_permissions, collect_role_permissions-IsMap,
}

module _ (svc : RbacService) where
  -- The role that was found names the permission.
  abbrev OfFound : Result Role → String → Permission → Type 0
  OfFound x k p = (r : Role) × ((x ≡ ok r) × Named svc r.spec.permissions k p)

  collect_found-OfFound :
      (x : Result Role) (out : Assoc Permission) (k : String) (p : Permission)
      → lookup k (collect_found svc x out) ≡ some p
      → (lookup k out ≡ some p) ⊎ OfFound x k p
  unfolding collect_found
  collect_found-OfFound (err e) out k p h = inl h
  collect_found-OfFound (ok r) out k p h =
      elim (collect_role_permissions-Named svc r.spec.permissions out k p h) [
        | inl o ↦ inl o
        | inr n ↦ inr (r, (refl, n))
      ]

  collect_found-kept :
      (x : Result Role) (out : Assoc Permission) (k : String)
      → HasKey k out
      → HasKey k (collect_found svc x out)
  unfolding collect_found
  collect_found-kept (err e) out k h = h
  collect_found-kept (ok r) out k h = collect_role_permissions-kept svc r.spec.permissions out k h

  OfFound-collect_found :
      (x : Result Role) (out : Assoc Permission) (k : String) (p : Permission)
      → OfFound x k p
      → HasKey k (collect_found svc x out)
  unfolding collect_found
  OfFound-collect_found x out k p (r, (e, n)) =
      rw e (Named-collect_role_permissions svc r.spec.permissions out k p n)

  collect_found-IsMap :
      (x : Result Role) (out : Assoc Permission) → IsMap out → IsMap (collect_found svc x out)
  unfolding collect_found
  collect_found-IsMap (err e) out h = h
  collect_found-IsMap (ok r) out h = collect_role_permissions-IsMap svc r.spec.permissions out h

  -- A binding that matches the user names a role that names the permission.
  abbrev OfBinding : User → List RoleBinding → String → Permission → Type 0
  OfBinding u bs k p =
      (b : RoleBinding) × (Memᴰ b bs
        × ((matches_user b (some u) ≡ true) × OfFound (svc.get_role_by_name b.role_ref.name) k p))

  abbrev step : User → RoleBinding → Assoc Permission → Assoc Permission
  step u b out =
      if matches_user b (some u)
      then collect_found svc (svc.get_role_by_name b.role_ref.name) out
      else out

  step-IsMap :
      (u : User) (b : RoleBinding) (out : Assoc Permission) → IsMap out → IsMap (step u b out)
  step-IsMap u b out h =
      if_both (IsMap {V = Permission}) (matches_user b (some u))
        (λ on. collect_found-IsMap (svc.get_role_by_name b.role_ref.name) out h) (λ off. h)

  step-kept :
      (u : User) (b : RoleBinding) (out : Assoc Permission) (k : String)
      → HasKey k out
      → HasKey k (step u b out)
  step-kept u b out k h =
      if_both (HasKey k) (matches_user b (some u))
        (λ on. collect_found-kept (svc.get_role_by_name b.role_ref.name) out k h) (λ off. h)

  collect_bindings-OfBinding :
      (u : User) (bs : List RoleBinding) (out : Assoc Permission) (k : String) (p : Permission)
      → lookup k (collect_bindings svc u bs out) ≡ some p
      → (lookup k out ≡ some p) ⊎ OfBinding u bs k p
  unfolding collect_bindings
  collect_bindings-OfBinding u [] out k p h = inl h
  collect_bindings-OfBinding u (b ∷ bs) out k p h =
      elim (collect_bindings-OfBinding u bs (step u b out) k p h) [
        | inr (c, (m, rest)) ↦ inr (c, (Memᴰ.tail m, rest))
        | inl f ↦ elim (Bool-cases (matches_user b (some u))) [
          | inr n ↦ inl (rw n at f)
          | inl y ↦
              elim (collect_found-OfFound (svc.get_role_by_name b.role_ref.name) out k p
                (rw y at f)) [ inl o ↦ inl o | inr d ↦ inr (b, (Memᴰ.head refl, (y, d))) ]
        ]
      ]

  collect_bindings-kept :
      (u : User) (bs : List RoleBinding) (out : Assoc Permission) (k : String)
      → HasKey k out
      → HasKey k (collect_bindings svc u bs out)
  unfolding collect_bindings
  collect_bindings-kept u [] out k h = h
  collect_bindings-kept u (b ∷ bs) out k h =
      collect_bindings-kept u bs (step u b out) k (step-kept u b out k h)

  OfBinding-collect_bindings :
      (u : User) (bs : List RoleBinding) (b : RoleBinding) (out : Assoc Permission) (k : String)
      (p : Permission)
      → Memᴰ b bs
      → matches_user b (some u) ≡ true
      → OfFound (svc.get_role_by_name b.role_ref.name) k p
      → HasKey k (collect_bindings svc u bs out)
  unfolding collect_bindings
  OfBinding-collect_bindings u [] b out k p m y d = elim m [ ]
  OfBinding-collect_bindings u (c ∷ bs) b out k p (Memᴰ.head e) y d =
      collect_bindings-kept u bs (step u c out) k
        (rw (← e, y) (OfFound-collect_found (svc.get_role_by_name b.role_ref.name) out k p d))
  OfBinding-collect_bindings u (c ∷ bs) b out k p (Memᴰ.tail t) y d =
      OfBinding-collect_bindings u bs b (step u c out) k p t y d

  collect_bindings-IsMap :
      (u : User) (bs : List RoleBinding) (out : Assoc Permission)
      → IsMap out
      → IsMap (collect_bindings svc u bs out)
  unfolding collect_bindings
  collect_bindings-IsMap u [] out h = h
  collect_bindings-IsMap u (b ∷ bs) out h =
      collect_bindings-IsMap u bs (step u b out) (step-IsMap u b out h)

  -- The user may do what the permission says: the default role, or the role of a binding that
  -- matches the user, names it.
  abbrev pub May : User → List RoleBinding → String → Permission → Type 0
  May u bs k p = OfFound (svc.get_role_by_name svc.default_role) k p ⊎ OfBinding u bs k p

  abbrev gathered : User → List RoleBinding → Assoc Permission
  gathered u bs =
      collect_bindings svc u bs (collect_found svc (svc.get_role_by_name svc.default_role) [])

  gathered-May :
      (u : User) (bs : List RoleBinding) (k : String) (p : Permission)
      → lookup k (gathered u bs) ≡ some p
      → May u bs k p
  unfolding lookup
  gathered-May u bs k p h = elim (collect_bindings-OfBinding u bs _ k p h) [
    | inr d ↦ inr d
    | inl f ↦ elim (collect_found-OfFound (svc.get_role_by_name svc.default_role) [] k p f) [
      | inr d ↦ inl d
      | inl z ↦ absurd (let f : ◌≡◌ {A = Option Permission} none (some p) = z in cc f)
    ]
  ]

  May-found :
      (u : User) (bs : List RoleBinding) (k : String) (p : Permission)
      → May u bs k p
      → svc.get_permission_by_name k ≡ ok p
  May-found u bs k p (inl (r, (e, (m, x)))) = x
  May-found u bs k p (inr (b, (mb, (y, (r, (e, (m, x))))))) = x

  May-HasKey :
      (u : User) (bs : List RoleBinding) (k : String) (p : Permission)
      → May u bs k p
      → HasKey k (gathered u bs)
  May-HasKey u bs k p (inl d) = collect_bindings-kept u bs _ k (OfFound-collect_found _ [] k p d)
  May-HasKey u bs k p (inr (b, (mb, (y, d)))) = OfBinding-collect_bindings u bs b _ k p mb y d

  May-lookup :
      (u : User) (bs : List RoleBinding) (k : String) (p : Permission)
      → May u bs k p
      → lookup k (gathered u bs) ≡ some p
  May-lookup u bs k p d =
      let (q, h) = May-HasKey u bs k p d in
      let same : ok q ≡ ok p =
        sym (May-found u bs k q (gathered-May u bs k q h)) ∙ May-found u bs k p d in
      let is : q ≡ p = cc same in h ∙ ap some is

  -- Where the user exists and the bindings can be listed, the permissions of the user are found, and
  -- are the ones that the default role names, and those that the role of a binding names which
  -- matches the user; a role or a permission that is not found is left out.
  pub get_user_permissions_iff :
      (uid : Uuid) (u : User) (bs : List RoleBinding)
      → svc.get_user uid ≡ ok u
      → svc.list_role_bindings ≡ ok bs
      → (ps : List Permission) × ((get_user_permissions svc uid ≡ ok ps)
          × ((p : Permission) → Memᴰ p ps ↔ ((k : String) × May u bs k p)))
  unfolding get_user_permissions
  get_user_permissions_iff uid u bs hu hb = (
    values_of (gathered u bs),
    (
      rw (hu, hb) refl,
      λ p. (
        λ m.
            let (k, at) =
              values_of-lookup (gathered u bs) p
                (collect_bindings-IsMap u bs _
                  (collect_found-IsMap (svc.get_role_by_name svc.default_role) [] tt))
                m in
            (k, gathered-May u bs k p at),
        λ (k, d). lookup-values_of (gathered u bs) k p (May-lookup u bs k p d),
      ),
    ),
  )
