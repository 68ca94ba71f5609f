-- ===== src/Access/Rbac.antt =====
-- service/rbac.go: what a user may do, and the policies made for the enforcer. The repositories of
-- users, roles, permissions and bindings are what they answer while one call runs.
use opampcommander.Base.{
  String, Option, none, some, List, [], ◌∷◌, ◌++◌, if◌then◌else◌, ◌==◌, nat_eq, string_eq, is_some,
  Assoc, lookup, insert, Result, ok, err, ◌>>=◌,
}
use opampcommander.Agent.Types.{Uuid}
use opampcommander.Access.Roles.{Permission, Role}
use opampcommander.Access.Users.{RoleBinding, Subject, User, matches_user, names_a_user}

abbrev pub wildcard_all : String
wildcard_all = "*"

abbrev pub role_default : String
role_default = "default"

abbrev pub default_namespace_name : String
default_namespace_name = "default"

pub record RbacService : Type 0 where
  pub get_user : Uuid → Result User
  pub list_users : Result (List User)
  pub list_role_bindings : Result (List RoleBinding)
  pub list_roles : Result (List Role)
  pub get_role_by_name : String → Result Role
  pub get_permission_by_name : String → Result Permission
  pub uuid_text : Uuid → String
  pub default_role : String
  pub default_namespace : String

or_default : String → String → String
or_default fallback s = if s == "" then fallback else s

-- NewRBACService, for the two settings.
unfoldable pub new_rbac_service : RbacService → RbacService
unfolding or_default
new_rbac_service given = record given {
  default_role = or_default role_default given.default_role;
  default_namespace = or_default default_namespace_name given.default_namespace;
}

pub record NamedPolicy : Type 0 where
  pub role_id : String
  pub dom : String
  pub resource : String
  pub action : String

pub record GroupingPolicy : Type 0 where
  pub user_id : String
  pub role_id : String
  pub namespace : String

unfoldable pub values_of : Assoc Permission → List Permission
values_of [] = []
values_of ((k, p) ∷ m) = p ∷ values_of m

-- The loop that fills roleByName: a later role of the same name takes its place.
unfoldable pub index_roles : List Role → Assoc Role → Assoc Role
index_roles [] m = m
index_roles (r ∷ rs) m = index_roles rs (insert r.spec.display_name r m)

-- The loop that fills usersByEmail.
unfoldable pub index_users : List User → Assoc User → Assoc User
index_users [] m = m
index_users (u ∷ us) m = index_users us (if u.spec.email == "" then m else insert u.spec.email u m)

module _ (svc : RbacService) where
  unfoldable pub found_permission : String → Assoc Permission → Result Permission → Assoc Permission
  found_permission id out (err e) = out
  found_permission id out (ok p) = insert id p out

  unfoldable pub added_permission : String → Assoc Permission → Assoc Permission
  unfolding found_permission
  added_permission id out =
      if is_some (lookup id out)
      then out
      else found_permission id out (svc.get_permission_by_name id)

  unfoldable pub collect_role_permissions : List String → Assoc Permission → Assoc Permission
  unfolding added_permission
  collect_role_permissions [] out = out
  collect_role_permissions (id ∷ ids) out = collect_role_permissions ids (added_permission id out)

  unfoldable pub collect_found : Result Role → Assoc Permission → Assoc Permission
  unfolding collect_role_permissions
  collect_found (err e) out = out
  collect_found (ok r) out = collect_role_permissions r.spec.permissions out

  unfoldable pub collect_bindings : User → List RoleBinding → Assoc Permission → Assoc Permission
  unfolding collect_found
  collect_bindings u [] out = out
  collect_bindings u (b ∷ bs) out = collect_bindings u bs (
      if matches_user b (some u)
      then collect_found (svc.get_role_by_name b.role_ref.name) out
      else out)

  unfoldable pub get_user_permissions : Uuid → Result (List Permission)
  unfolding collect_bindings values_of
  get_user_permissions uid = do
    u ← svc.get_user uid
    bs ← svc.list_role_bindings
    ok (
        values_of
          (collect_bindings u bs (collect_found (svc.get_role_by_name svc.default_role) [])))

  unfoldable pub get_effective_permissions : Uuid → Result (List Permission)
  unfolding get_user_permissions
  get_effective_permissions uid = get_user_permissions uid

  named : Role → Result Permission → List NamedPolicy → List NamedPolicy
  named r (err e) rest = rest
  named r (ok p) rest =
      record {
        role_id = svc.uuid_text r.metadata.uid;
        dom = wildcard_all;
        resource = p.spec.resource;
        action = p.spec.action;
      }
      ∷ rest

  policies_of : Role → List String → List NamedPolicy → List NamedPolicy
  unfolding named
  policies_of r [] rest = rest
  policies_of r (id ∷ ids) rest = named r (svc.get_permission_by_name id) (policies_of r ids rest)

  unfoldable pub collect_named_policies : List Role → List NamedPolicy
  unfolding policies_of
  collect_named_policies [] = []
  collect_named_policies (r ∷ rs) = policies_of r r.spec.permissions (collect_named_policies rs)

  unfoldable pub grouping : User → Role → String → GroupingPolicy
  grouping u r namespace = record {
    user_id = svc.uuid_text u.metadata.uid;
    role_id = svc.uuid_text r.metadata.uid;
    namespace = namespace;
  }

  unfoldable pub all_grouped : Role → List User → List GroupingPolicy
  unfolding grouping
  all_grouped r [] = []
  all_grouped r (u ∷ us) = grouping u r svc.default_namespace ∷ all_grouped r us

  unfoldable pub by_default : Option Role → List User → List GroupingPolicy
  unfolding all_grouped
  by_default none us = []
  by_default (some r) us = all_grouped r us

  unfoldable pub default_role_groupings : Assoc Role → List User → List GroupingPolicy
  unfolding by_default
  default_role_groupings roles us = by_default (lookup svc.default_role roles) us

  unfoldable pub found_user :
      Role → String → Option User → List GroupingPolicy → List GroupingPolicy
  unfolding grouping
  found_user r namespace none rest = rest
  found_user r namespace (some u) rest = grouping u r namespace ∷ rest

  unfoldable pub subject_groupings : Role → String → Assoc User → List Subject → List GroupingPolicy
  unfolding found_user
  subject_groupings r namespace users [] = []
  subject_groupings r namespace users (s ∷ ss) =
      let rest = subject_groupings r namespace users ss in
      if names_a_user s then found_user r namespace (lookup s.name users) rest else rest

  unfoldable pub of_role : RoleBinding → Assoc User → Option Role → List GroupingPolicy
  unfolding subject_groupings
  of_role b users none = []
  of_role b users (some r) = subject_groupings r b.metadata.namespace users b.subjects

  unfoldable pub binding_groupings : RoleBinding → Assoc Role → Assoc User → List GroupingPolicy
  unfolding of_role
  binding_groupings b roles users = of_role b users (lookup b.role_ref.name roles)

  unfoldable pub bound_groupings : List RoleBinding → Assoc Role → Assoc User → List GroupingPolicy
  unfolding binding_groupings
  bound_groupings [] roles users = []
  bound_groupings (b ∷ bs) roles users =
      binding_groupings b roles users ++ bound_groupings bs roles users

  unfoldable pub collect_grouping_policies : Assoc Role → Result (List GroupingPolicy)
  unfolding index_users default_role_groupings bound_groupings
  collect_grouping_policies roles = do
    bs ← svc.list_role_bindings
    us ← svc.list_users
    ok (default_role_groupings roles us ++ bound_groupings bs roles (index_users us []))

  unfoldable pub collect_policies : Result (List NamedPolicy × List GroupingPolicy)
  unfolding index_roles collect_named_policies collect_grouping_policies
  collect_policies = do
    rs ← svc.list_roles
    gs ← collect_grouping_policies (index_roles rs [])
    ok (collect_named_policies rs, gs)
