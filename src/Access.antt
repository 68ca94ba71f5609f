-- ===== src/Access.antt =====
-- domain/user: users, roles, permissions and the bindings of roles to users.
pub mod Roles
pub mod Users
pub mod Rbac
pub mod Sync
pub mod Groupings
pub mod Granted
pub mod Permissions
pub mod Effective
