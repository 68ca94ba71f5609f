-- ===== src/Access/Groupings.antt =====
-- service/rbac.go: the index of the users by their emails, and the groupings of one binding.
use opampcommander.Base.{
  String, ◌≡◌, refl, sym, ap, ◌∙◌, ◌≢◌, ◌⊎◌, inl, inr, true, ◌&&◌, Option, none, some, List, [],
  ◌∷◌, eq_iff, if◌then◌else◌, ◌==◌, nat_eq, string_eq, str_eq_refl, if_both, Bool-cases, Assoc,
  lookup, insert, lookup-insert,
}
use mathlib.Core.List.{Memᴰ}
use opampcommander.Base.{HasKey}
use opampcommander.Base.Members.{in_cons}
use opampcommander.Access.Roles.{Role}
use opampcommander.Access.Users.{Subject, User, any_names, names_a_user}
use opampcommander.Access.Rbac.{
  RbacService, GroupingPolicy, index_users, grouping, found_user, subject_groupings,
}

-- No two of the users share an email, other than the empty one.
abbrev pub OwnEmails : List User → Type 0
OwnEmails us =
    (u v : User) → Memᴰ u us → Memᴰ v us → u.spec.email ≢ "" → u.spec.email ≡ v.spec.email → u ≡ v

-- The index of the users by their emails.
abbrev pub Indexed : List User → String → User → Type 0
Indexed us e u = Memᴰ u us × ((u.spec.email ≡ e) × (e ≢ ""))

abbrev step : User → Assoc User → Assoc User
step u m = if u.spec.email == "" then m else insert u.spec.email u m

step_found :
    (w : User) (m : Assoc User) (e : String) (u : User)
    → lookup e (step w m) ≡ some u
    → ((u ≡ w) × ((u.spec.email ≡ e) × (e ≢ ""))) ⊎ (lookup e m ≡ some u)
step_found w m e u h = elim (Bool-cases (w.spec.email == "")) [
  | inl y ↦ inr (rw y at h)
  | inr n ↦
      let f : (if w.spec.email == e then some w else lookup e m) ≡ some u =
        rw (n, lookup-insert w.spec.email e w m) at h in
      elim (Bool-cases (w.spec.email == e)) [
        | inl q ↦
            let same : some w ≡ some u = rw q at f in
            let is : w ≡ u = cc same in
            let at_e : w.spec.email ≡ e = (eq_iff w.spec.email e).0 q in
            inl (
              sym is,
              (
                ap (λ (x : User). x.spec.email) (sym is) ∙ at_e,
                λ z. cc ((eq_iff w.spec.email "").1 (at_e ∙ z), n),
              ),
            )
        | inr q ↦ inr (rw q at f)
      ]
]

pub index_users-found :
    (us : List User) (m : Assoc User) (e : String) (u : User)
    → lookup e (index_users us m) ≡ some u
    → Indexed us e u ⊎ (lookup e m ≡ some u)
unfolding index_users
index_users-found [] m e u h = inr h
index_users-found (w ∷ us) m e u h = elim (index_users-found us (step w m) e u h) [
  | inl (l, r) ↦ inl (Memᴰ.tail l, r)
  | inr k ↦ elim (step_found w m e u k) [ inl (is, r) ↦ inl (Memᴰ.head is, r) | inr o ↦ inr o ]
]

step_kept : (w : User) (m : Assoc User) (e : String) → HasKey e m → HasKey e (step w m)
step_kept w m e (v, h) = elim (Bool-cases (w.spec.email == "")) [
  | inl y ↦ rw y (v, h)
  | inr n ↦
      rw (n, lookup-insert w.spec.email e w m)
        (if_both (λ (o : Option User). (x : User) × (o ≡ some x)) (w.spec.email == e)
          (λ on. (w, refl)) (λ off. (v, h)))
]

index_users-kept :
    (us : List User) (m : Assoc User) (e : String) → HasKey e m → HasKey e (index_users us m)
unfolding index_users
index_users-kept [] m e h = h
index_users-kept (w ∷ us) m e h = index_users-kept us (step w m) e (step_kept w m e h)

step_listed : (w : User) (m : Assoc User) → w.spec.email ≢ "" → HasKey w.spec.email (step w m)
step_listed w m ne =
    if_both (HasKey w.spec.email) (w.spec.email == "")
      (λ on. absurd (ne ((eq_iff w.spec.email "").0 on)))
      (λ off.
        (w, lookup-insert w.spec.email w.spec.email w m ∙ (rw (str_eq_refl w.spec.email) refl)))

index_users-listed :
    (us : List User) (m : Assoc User) (u : User)
    → Memᴰ u us
    → u.spec.email ≢ ""
    → HasKey u.spec.email (index_users us m)
unfolding index_users
index_users-listed [] m u mem ne = elim mem [ ]
index_users-listed (w ∷ us) m u (Memᴰ.head e) ne =
    index_users-kept us (step w m) u.spec.email
      (rw (e) (step_listed w m (λ z. ne (ap (λ (x : User). x.spec.email) e ∙ z))))
index_users-listed (w ∷ us) m u (Memᴰ.tail t) ne = index_users-listed us (step w m) u t ne

not_in_empty : (e : String) (u : User) → ¬ (lookup e [] ≡ some u)
unfolding lookup
not_in_empty e u h = let f : ◌≡◌ {A = Option User} none (some u) = h in cc f

pub lookup-index_users :
    (us : List User) (u : User)
    → OwnEmails us
    → Memᴰ u us
    → u.spec.email ≢ ""
    → lookup u.spec.email (index_users us []) ≡ some u
lookup-index_users us u own mem ne =
    let (v, h) = index_users-listed us [] u mem ne in
    elim (index_users-found us [] u.spec.email v h) [
      | inl (at, (same, _)) ↦ h ∙ ap some (sym (own u v mem at ne (sym same)))
      | inr z ↦ absurd (not_in_empty u.spec.email v z)
    ]

module _ (svc : RbacService) (r : Role) (namespace : String) (users : Assoc User) where
  found_user-rest :
      (o : Option User) (g : GroupingPolicy) (rest : List GroupingPolicy)
      → Memᴰ g rest
      → Memᴰ g (found_user svc r namespace o rest)
  unfolding found_user
  found_user-rest none g rest m = m
  found_user-rest (some u) g rest m = Memᴰ.tail m

  found_user-split :
      (o : Option User) (g : GroupingPolicy) (rest : List GroupingPolicy)
      → Memᴰ g (found_user svc r namespace o rest)
      → ((u : User) × ((o ≡ some u) × (g ≡ grouping svc u r namespace))) ⊎ Memᴰ g rest
  unfolding found_user
  found_user-split none g rest m = inr m
  found_user-split (some u) g rest m = elim (in_cons m) [
    | inl e ↦ inl (u, (refl, e))
    | inr t ↦ inr t
  ]

  abbrev pub Named : List Subject → GroupingPolicy → Type 0
  Named ss g =
      (e : String) × ((u : User) × ((any_names e ss ≡ true)
          × ((lookup e users ≡ some u) × (g ≡ grouping svc u r namespace))))

  any_names-tail :
      (e : String) (s : Subject) (ss : List Subject)
      → any_names e ss ≡ true
      → any_names e (s ∷ ss) ≡ true
  unfolding any_names
  any_names-tail e s ss h =
      if_both (λ b. b ≡ true) (names_a_user s && (s.name == e)) (λ on. refl) (λ off. h)

  any_names-head :
      (s : Subject) (ss : List Subject) → names_a_user s ≡ true → any_names s.name (s ∷ ss) ≡ true
  unfolding any_names
  any_names-head s ss h = rw (h, str_eq_refl s.name) refl

  pub subject_groupings-Named :
      (ss : List Subject) (g : GroupingPolicy)
      → Memᴰ g (subject_groupings svc r namespace users ss)
      → Named ss g
  unfolding subject_groupings
  subject_groupings-Named [] g m = elim m [ ]
  subject_groupings-Named (s ∷ ss) g m =
      let below : Memᴰ g (subject_groupings svc r namespace users ss) → Named (s ∷ ss) g = λ t.
        let (e, (u, (n, rest))) = subject_groupings-Named ss g t in
        (e, (u, (any_names-tail e s ss n, rest))) in
      elim (Bool-cases (names_a_user s)) [
        | inl y ↦ elim (found_user-split (lookup s.name users) g _ (rw y at m)) [
          | inl (u, rest) ↦ (s.name, (u, (any_names-head s ss y, rest)))
          | inr t ↦ below t
        ]
        | inr n ↦ below (rw n at m)
      ]

  pub Named-subject_groupings :
      (ss : List Subject) (e : String) (u : User)
      → any_names e ss ≡ true
      → lookup e users ≡ some u
      → Memᴰ (grouping svc u r namespace) (subject_groupings svc r namespace users ss)
  unfolding subject_groupings any_names
  Named-subject_groupings [] e u h l = cc
  Named-subject_groupings (s ∷ ss) e u h l = elim (Bool-cases (names_a_user s)) [
    | inl y ↦ elim (Bool-cases (s.name == e)) [
      | inl q ↦ rw (y, (eq_iff s.name e).0 q, l, found_user) (Memᴰ.head refl)
      | inr q ↦ rw y (found_user-rest _ _ _ (Named-subject_groupings ss e u (rw (y, q) at h) l))
    ]
    | inr n ↦ rw n (Named-subject_groupings ss e u (rw n at h) l)
  ]
