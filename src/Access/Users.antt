-- ===== src/Access/Users.antt =====
-- user.go and rolebinding.go of domain/user: users, and the bindings of roles to them. A
-- spec of a binding and a status are written as their fields.
use opampcommander.Base.{
  String, Bool, true, false, not, ◌&&◌, Option, none, some, List, [], ◌∷◌, if◌then◌else◌, ◌==◌,
  nat_eq, string_eq, is_some, GoSlice, GoMap, elems, lookup, insert, remove, string_or_empty,
}
use opampcommander.Agent.Types.{Uuid, Condition}
use opampcommander.Agent.Health.{Time}

pub record UserIdentity : Type 0 where
  pub provider : String
  pub provider_user_id : String
  pub email : String
  pub display_name : String

pub record UserMetadata : Type 0 where
  pub uid : Uuid
  pub created_at : Time
  pub updated_at : Time
  pub deleted_at : Option Time
  pub labels : GoMap String

-- The credential is its password hash.
pub record UserSpec : Type 0 where
  pub email : String
  pub username : String
  pub is_active : Bool
  pub identities : List UserIdentity
  pub basic_auth : Option String

pub record User : Type 0 where
  pub metadata : UserMetadata
  pub spec : UserSpec
  pub conditions : GoSlice Condition
  pub roles : GoSlice String

unfoldable pub new_user : Uuid → Time → String → String → User
new_user fresh now email username = record {
  metadata = record {
    uid = fresh;
    created_at = now;
    updated_at = now;
    deleted_at = none;
    labels = some [];
  };
  spec = record {
    email = email;
    username = username;
    is_active = true;
    identities = [];
    basic_auth = none;
  };
  conditions = some [];
  roles = some [];
}

with_identities : User → List UserIdentity → User
with_identities u ids = record u { spec = record u.spec { identities = ids } }

unfoldable pub new_user_with_identity : Uuid → Time → String → String → String → String → User
unfolding new_user with_identities
new_user_with_identity fresh now provider provider_user_id email display_name =
    with_identities (new_user fresh now email display_name) (
      record {
        provider = provider;
        provider_user_id = provider_user_id;
        email = email;
        display_name = display_name;
      }
      ∷ [])

same_account : String → String → UserIdentity → Bool
same_account provider provider_user_id i =
    (i.provider == provider) && (i.provider_user_id == provider_user_id)

replace_or_append : UserIdentity → List UserIdentity → List UserIdentity
unfolding same_account
replace_or_append new [] = new ∷ []
replace_or_append new (i ∷ ids) =
    let rest = replace_or_append new ids in
    if same_account new.provider new.provider_user_id i then new ∷ ids else i ∷ rest

unfoldable pub add_identity : UserIdentity → User → User
unfolding replace_or_append with_identities
add_identity new u = with_identities u (replace_or_append new u.spec.identities)

without_account : String → String → List UserIdentity → List UserIdentity
unfolding same_account
without_account p uid [] = []
without_account p uid (i ∷ ids) =
    let rest = without_account p uid ids in if same_account p uid i then ids else i ∷ rest

unfoldable pub remove_identity : String → String → User → User
unfolding without_account with_identities
remove_identity p uid u = with_identities u (without_account p uid u.spec.identities)

of_provider : String → List UserIdentity → Option UserIdentity
of_provider p [] = none
of_provider p (i ∷ ids) = let rest = of_provider p ids in if i.provider == p then some i else rest

unfoldable pub get_identity : User → String → Option UserIdentity
unfolding of_provider
get_identity u p = of_provider p u.spec.identities

unfoldable pub has_identity : User → String → Bool
unfolding get_identity
has_identity u p = is_some (get_identity u p)

with_basic_auth : Option String → User → User
with_basic_auth b u = record u { spec = record u.spec { basic_auth = b } }

unfoldable pub set_password_hash : String → User → User
unfolding with_basic_auth
set_password_hash hash u = with_basic_auth (some hash) u

unfoldable pub clear_password_hash : User → User
unfolding with_basic_auth
clear_password_hash u = with_basic_auth none u

unfoldable pub password_hash : User → String
password_hash u = string_or_empty u.spec.basic_auth

unfoldable pub has_basic_auth : User → Bool
unfolding password_hash
has_basic_auth u = is_some u.spec.basic_auth && not (password_hash u == "")

with_labels : GoMap String → User → User
with_labels l u = record u { metadata = record u.metadata { labels = l } }

unfoldable pub set_label : String → String → User → User
unfolding with_labels
set_label k v u = with_labels (some (insert k v (elems u.metadata.labels))) u

-- delete on a nil map does nothing.
removed_label : String → GoMap String → GoMap String
removed_label k none = none
removed_label k (some m) = some (remove k m)

unfoldable pub remove_label : String → User → User
unfolding removed_label with_labels
remove_label k u = with_labels (removed_label k u.metadata.labels) u

unfoldable pub get_label : User → String → Option String
get_label u k = lookup k (elems u.metadata.labels)

abbrev pub subject_kind_user : String
subject_kind_user = "User"

pub record Subject : Type 0 where
  pub kind : String
  pub name : String
  pub api_version : String

pub record RoleRef : Type 0 where
  pub kind : String
  pub name : String

pub record RoleBindingMetadata : Type 0 where
  pub namespace : String
  pub name : String
  pub created_at : Time
  pub updated_at : Time
  pub deleted_at : Option Time

pub record RoleBinding : Type 0 where
  pub metadata : RoleBindingMetadata
  pub role_ref : RoleRef
  pub subjects : List Subject
  pub conditions : GoSlice Condition

unfoldable pub new_role_binding : Time → String → String → RoleRef → RoleBinding
new_role_binding now namespace name role_ref = record {
  metadata = record {
    namespace = namespace;
    name = name;
    created_at = now;
    updated_at = now;
    deleted_at = none;
  };
  role_ref = role_ref;
  subjects = [];
  conditions = some [];
}

-- A subject with another kind or with no name is passed over.
unfoldable pub names_a_user : Subject → Bool
names_a_user s = (s.kind == subject_kind_user) && not (s.name == "")

unfoldable pub any_names : String → List Subject → Bool
unfolding names_a_user
any_names email [] = false
any_names email (s ∷ ss) = if names_a_user s && (s.name == email) then true else any_names email ss

unfoldable pub matches_user : RoleBinding → Option User → Bool
unfolding any_names
matches_user b none = false
matches_user b (some u) = not (u.spec.email == "") && any_names u.spec.email b.subjects
