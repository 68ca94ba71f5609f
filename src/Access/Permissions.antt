-- ===== src/Access/Permissions.antt =====
-- service/rbac.go: the permissions of a role, added to a map.
use opampcommander.Base.{
  String, ◌≡◌, refl, sym, ap, ◌∙◌, ◌⊎◌, inl, inr, Option, none, some, List, [], ◌∷◌, eq_iff,
  if◌then◌else◌, ◌==◌, nat_eq, string_eq, str_eq_refl, if_both, Bool-cases, Option-cases, Assoc,
  lookup, lookup-insert, Error, Result, ok, err,
}
use opampcommander.Base.MapLaws.{IsMap, insert-IsMap, lookup-tail, lookup-head}
use opampcommander.Base.{HasKey}
use mathlib.Core.List.{Memᴰ}
use opampcommander.Access.Roles.{Permission}
use opampcommander.Access.Rbac.{
  RbacService, values_of, found_permission, added_permission, collect_role_permissions,
}

pub values_of-lookup :
    (m : Assoc Permission) (p : Permission)
    → IsMap m
    → Memᴰ p (values_of m)
    → (k : String) × (lookup k m ≡ some p)
unfolding values_of
values_of-lookup [] p h mem = elim mem [ ]
values_of-lookup ((j, q) ∷ m) p h (Memᴰ.head e) = (j, lookup-head j q m ∙ ap some (sym e))
values_of-lookup ((j, q) ∷ m) p h (Memᴰ.tail t) =
    let (k, at) = values_of-lookup m p h.1 t in (k, lookup-tail j k q p m h.0 at)

pub lookup-values_of :
    (m : Assoc Permission) (k : String) (p : Permission)
    → lookup k m ≡ some p
    → Memᴰ p (values_of m)
unfolding values_of lookup
lookup-values_of [] k p h = absurd (let f : ◌≡◌ {A = Option Permission} none (some p) = h in cc f)
lookup-values_of ((j, q) ∷ m) k p h = elim (Bool-cases (j == k)) [
  | inl y ↦ let same : some q ≡ some p = rw y at h in let is : q ≡ p = cc same in Memᴰ.head (sym is)
  | inr n ↦ Memᴰ.tail (lookup-values_of m k p (rw n at h))
]

pub Result-cases :
    {A : Type 0} (x : Result A) → ((a : A) × (x ≡ ok a)) ⊎ ((e : Error) × (x ≡ err e))
Result-cases (ok a) = inl (a, refl)
Result-cases (err e) = inr (e, refl)

module _ (svc : RbacService) where
  abbrev pub Named : List String → String → Permission → Type 0
  Named ids k p = Memᴰ k ids × (svc.get_permission_by_name k ≡ ok p)

  added_from :
      (id : String) (out : Assoc Permission) (k : String) (p : Permission)
      → lookup k (added_permission svc id out) ≡ some p
      → (lookup k out ≡ some p) ⊎ ((k ≡ id) × (svc.get_permission_by_name k ≡ ok p))
  unfolding added_permission found_permission
  added_from id out k p h = elim (Option-cases (lookup id out)) [
    | inr (q, s) ↦ inl (rw s at h)
    | inl n ↦ elim (Result-cases (svc.get_permission_by_name id)) [
      | inr (e, x) ↦ inl (rw (n, x) at h)
      | inl (q, x) ↦
          let f : (if id == k then some q else lookup k out) ≡ some p =
            rw (n, x, lookup-insert id k q out) at h in
          elim (Bool-cases (id == k)) [
            | inl y ↦
                let same : some q ≡ some p = rw y at f in
                let is : q ≡ p = cc same in
                let at_k : id ≡ k = (eq_iff id k).0 y in
                inr (
                  sym at_k,
                  ap (λ (z : String). svc.get_permission_by_name z) (sym at_k) ∙ x ∙ ap ok is,
                )
            | inr m ↦ inl (rw m at f)
          ]
    ]
  ]

  added_kept :
      (id : String) (out : Assoc Permission) (k : String)
      → HasKey k out
      → HasKey k (added_permission svc id out)
  unfolding added_permission found_permission
  added_kept id out k (p, h) = elim (Option-cases (lookup id out)) [
    | inr (q, s) ↦ rw s (p, h)
    | inl n ↦ elim (Result-cases (svc.get_permission_by_name id)) [
      | inr (e, x) ↦ rw (n, x) (p, h)
      | inl (q, x) ↦
          rw (n, x, lookup-insert id k q out)
            (if_both (λ (o : Option Permission). (v : Permission) × (o ≡ some v)) (id == k)
              (λ on. (q, refl)) (λ off. (p, h)))
    ]
  ]

  added_new :
      (id : String) (out : Assoc Permission) (p : Permission)
      → svc.get_permission_by_name id ≡ ok p
      → HasKey id (added_permission svc id out)
  unfolding added_permission found_permission
  added_new id out p x = elim (Option-cases (lookup id out)) [
    | inr (q, s) ↦ rw s (q, s)
    | inl n ↦ rw (n, x) (p, lookup-insert id id p out ∙ rw (str_eq_refl id) refl)
  ]

  added-IsMap :
      (id : String) (out : Assoc Permission) → IsMap out → IsMap (added_permission svc id out)
  unfolding added_permission found_permission
  added-IsMap id out h = elim (Option-cases (lookup id out)) [
    | inr (q, s) ↦ rw s h
    | inl n ↦ elim (Result-cases (svc.get_permission_by_name id)) [
      | inr (e, x) ↦ rw (n, x) h
      | inl (q, x) ↦ rw (n, x) (insert-IsMap id q out h)
    ]
  ]

  pub collect_role_permissions-Named :
      (ids : List String) (out : Assoc Permission) (k : String) (p : Permission)
      → lookup k (collect_role_permissions svc ids out) ≡ some p
      → (lookup k out ≡ some p) ⊎ Named ids k p
  unfolding collect_role_permissions
  collect_role_permissions-Named [] out k p h = inl h
  collect_role_permissions-Named (id ∷ ids) out k p h =
      elim (collect_role_permissions-Named ids (added_permission svc id out) k p h) [
        | inr (m, x) ↦ inr (Memᴰ.tail m, x)
        | inl f ↦ elim (added_from id out k p f) [
          | inl o ↦ inl o
          | inr (e, x) ↦ inr (Memᴰ.head e, x)
        ]
      ]

  pub collect_role_permissions-kept :
      (ids : List String) (out : Assoc Permission) (k : String)
      → HasKey k out
      → HasKey k (collect_role_permissions svc ids out)
  unfolding collect_role_permissions
  collect_role_permissions-kept [] out k h = h
  collect_role_permissions-kept (id ∷ ids) out k h =
      collect_role_permissions-kept ids _ k (added_kept id out k h)

  pub Named-collect_role_permissions :
      (ids : List String) (out : Assoc Permission) (k : String) (p : Permission)
      → Named ids k p
      → HasKey k (collect_role_permissions svc ids out)
  unfolding collect_role_permissions
  Named-collect_role_permissions [] out k p (m, x) = elim m [ ]
  Named-collect_role_permissions (id ∷ ids) out k p (Memᴰ.head e, x) =
      collect_role_permissions-kept ids _ k
        (rw e (added_new id out p (ap (λ (z : String). svc.get_permission_by_name z) (sym e) ∙ x)))
  Named-collect_role_permissions (id ∷ ids) out k p (Memᴰ.tail t, x) =
      Named-collect_role_permissions ids _ k p (t, x)

  pub collect_role_permissions-IsMap :
      (ids : List String) (out : Assoc Permission)
      → IsMap out
      → IsMap (collect_role_permissions svc ids out)
  unfolding collect_role_permissions
  collect_role_permissions-IsMap [] out h = h
  collect_role_permissions-IsMap (id ∷ ids) out h =
      collect_role_permissions-IsMap ids _ (added-IsMap id out h)
