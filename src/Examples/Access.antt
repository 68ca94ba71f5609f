-- ===== src/Examples/Access.antt =====
-- Users and their roles at a small service.
use opampcommander.Base.{
  String, ◌≡◌, refl, sym, ap, ◌∙◌, ◌≢◌, ◌↔◌, ◌⊎◌, inl, inr, true, List, [], ◌∷◌, map, eq_iff,
  nat_beq, if◌then◌else◌, ◌==◌, nat_eq, string_eq, Assoc, lookup, insert, resource_not_exist,
  Result, ok, err,
}
use mathlib.Core.List.{Memᴰ}
use opampcommander.Base.Members.{in_cons}
use opampcommander.Access.Roles.{Permission, Role, new_permission, new_role, add_permission}
use opampcommander.Access.Users.{
  RoleBinding, User, new_user, new_role_binding, matches_user, subject_kind_user,
}
use opampcommander.Access.Rbac.{
  RbacService, GroupingPolicy, index_roles, collect_grouping_policies, get_user_permissions,
}
use opampcommander.Access.Groupings.{OwnEmails}
use opampcommander.Access.Granted.{ByDefault, Bound, collect_grouping_policies_iff}
use opampcommander.Access.Effective.{May, get_user_permissions_iff}

abbrev jo : User
jo = new_user 7 1 "jo@example.com" "jo"

abbrev kim : User
kim = new_user 8 2 "kim@example.com" "kim"

abbrev both_users : List User
both_users = jo ∷ kim ∷ []

abbrev default_role_of_all : Role
default_role_of_all = add_permission "agent:GET" (new_role 1 1 "default" true)

abbrev admin : Role
admin = add_permission "agent:DELETE" (new_role 2 1 "Admin" true)

abbrev admins : RoleBinding
admins = record (new_role_binding 3 "prod" "admins" (record { kind = "Role"; name = "Admin" })) {
  subjects = record { kind = subject_kind_user; name = "jo@example.com"; api_version = "" } ∷ [];
}

abbrev small_service : RbacService
small_service = record {
  get_user = λ uid. ok jo;
  list_users = ok both_users;
  list_role_bindings = ok (admins ∷ []);
  list_roles = ok (default_role_of_all ∷ admin ∷ []);
  get_role_by_name = λ n. if n == "Admin" then ok admin else ok default_role_of_all;
  get_permission_by_name = λ n.
      if n == "agent:GET"
      then ok (new_permission 5 1 "agent" "GET" true)
      else if n == "agent:DELETE"
      then ok (new_permission 6 1 "agent" "DELETE" true)
      else err resource_not_exist;
  uuid_text = λ uid. if nat_beq uid 7 then "jo" else "other";
  default_role = "default";
  default_namespace = "default";
}

abbrev small_roles : Assoc Role
small_roles = index_roles (default_role_of_all ∷ admin ∷ []) []

emails_differ : jo.spec.email ≢ kim.spec.email
unfolding new_user
emails_differ h = cc ((eq_iff "jo@example.com" "kim@example.com").1 h)

one_of : (u : User) → Memᴰ u both_users → (u ≡ jo) ⊎ (u ≡ kim)
one_of u m = elim (in_cons m) [
  | inl e ↦ inl e
  | inr t ↦ elim (in_cons t) [ inl e ↦ inr e | inr z ↦ elim z [ ] ]
]

abbrev email_of : User → String
email_of u = u.spec.email

own_emails : OwnEmails both_users
own_emails u v mu mv ne e = elim (one_of u mu) [
  | inl a ↦ elim (one_of v mv) [
    | inl b ↦ a ∙ sym b
    | inr b ↦ absurd (emails_differ (sym (ap email_of a) ∙ e ∙ ap email_of b))
  ]
  | inr a ↦ elim (one_of v mv) [
    | inl b ↦ absurd (emails_differ (sym (ap email_of b) ∙ sym e ∙ ap email_of a))
    | inr b ↦ a ∙ sym b
  ]
]

collect_grouping_policies_iff_example :
    (gs : List GroupingPolicy) × ((collect_grouping_policies small_service small_roles ≡ ok gs)
      × ((g : GroupingPolicy)
          → Memᴰ g gs ↔ (
              ByDefault small_service small_roles both_users g
              ⊎ Bound small_service small_roles both_users (admins ∷ []) g)))
collect_grouping_policies_iff_example =
    collect_grouping_policies_iff small_service small_roles both_users (admins ∷ []) refl refl
      own_emails

get_user_permissions_iff_example :
    (ps : List Permission) × ((get_user_permissions small_service 7 ≡ ok ps)
      × ((p : Permission) → Memᴰ p ps ↔ ((k : String) × May small_service jo (admins ∷ []) k p)))
get_user_permissions_iff_example =
    get_user_permissions_iff small_service 7 jo (admins ∷ []) refl refl

permitted : Result (List Permission) → List String
permitted (err e) = []
permitted (ok ps) = map (λ (p : Permission). p.spec.name) ps

jo_may : permitted (get_user_permissions small_service 7) ≡ ("agent:GET" ∷ "agent:DELETE" ∷ [])
unfolding permitted get_user_permissions matches_user new_user new_role_binding add_permission
    new_role lookup insert new_permission
jo_may = refl
