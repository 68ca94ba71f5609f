-- ===== src/Access/Roles.antt =====
-- permission.go and role.go of domain/user: permissions and roles.
-- A status is written as its fields.
use Prim.Native.String.{◌++◌ as str_append}
use opampcommander.Base.{
  String, Bool, true, false, Option, none, some, List, [], ◌∷◌, ◌++◌, if◌then◌else◌, ◌==◌, nat_eq,
  string_eq, is_some, GoSlice,
}
use opampcommander.Agent.Types.{Uuid, Condition}
use opampcommander.Agent.Health.{Time}

-- PermissionMetadata, RoleMetadata and UserRoleMetadata, which have the same fields.
pub record ObjectMetadata : Type 0 where
  pub uid : Uuid
  pub created_at : Time
  pub updated_at : Time
  pub deleted_at : Option Time

-- The methods IsDeleted, Delete and Restore of the three kinds.
unfoldable pub is_deleted : ObjectMetadata → Bool
is_deleted m = is_some m.deleted_at

unfoldable pub delete : Time → ObjectMetadata → ObjectMetadata
delete now m = record m { deleted_at = some now }

unfoldable pub restore : ObjectMetadata → ObjectMetadata
restore m = record m { deleted_at = none }

abbrev pub new_metadata : Uuid → Time → ObjectMetadata
new_metadata fresh now = record {
  uid = fresh;
  created_at = now;
  updated_at = now;
  deleted_at = none;
}

pub record PermissionSpec : Type 0 where
  pub name : String
  pub description : String
  pub resource : String
  pub action : String
  pub is_built_in : Bool

pub record Permission : Type 0 where
  pub metadata : ObjectMetadata
  pub spec : PermissionSpec
  pub conditions : GoSlice Condition

unfoldable pub new_permission : Uuid → Time → String → String → Bool → Permission
new_permission fresh now resource action is_built_in = record {
  metadata = new_metadata fresh now;
  spec = record {
    name = str_append resource (str_append ":" action);
    description = "";
    resource = resource;
    action = action;
    is_built_in = is_built_in;
  };
  conditions = some [];
}

pub record RoleSpec : Type 0 where
  pub display_name : String
  pub description : String
  pub permissions : List String
  pub is_built_in : Bool

pub record Role : Type 0 where
  pub metadata : ObjectMetadata
  pub spec : RoleSpec
  pub conditions : GoSlice Condition

unfoldable pub new_role : Uuid → Time → String → Bool → Role
new_role fresh now display_name is_built_in = record {
  metadata = new_metadata fresh now;
  spec = record {
    display_name = display_name;
    description = "";
    permissions = [];
    is_built_in = is_built_in;
  };
  conditions = some [];
}

unfoldable pub contains : List String → String → Bool
contains [] x = false
contains (y ∷ ys) x = if y == x then true else contains ys x

unfoldable pub remove_first : String → List String → List String
remove_first x [] = []
remove_first x (y ∷ ys) = let rest = remove_first x ys in if y == x then ys else y ∷ rest

with_permissions : Role → List String → Role
with_permissions r ps = record r { spec = record r.spec { permissions = ps } }

unfoldable pub has_permission : Role → String → Bool
unfolding contains
has_permission r p = contains r.spec.permissions p

unfoldable pub add_permission : String → Role → Role
unfolding has_permission with_permissions
add_permission p r =
    if has_permission r p then r else with_permissions r (r.spec.permissions ++ p ∷ [])

unfoldable pub remove_permission : String → Role → Role
unfolding remove_first with_permissions
remove_permission p r = with_permissions r (remove_first p r.spec.permissions)
