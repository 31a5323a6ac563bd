-- ===== src/Access.antt =====
-- `RBACManager`, `User` and `Role` of core/infrastructure/security/rbac.py, with the times of the
-- updates left out. A set is a list, in the order of its iteration.
pub mod Permissions
pub mod Granted
pub mod Deletion
pub mod History
pub mod Listings
mod Examples
use self_optimizing_competit.Base.{
  ℕ, ◌+◌, Bool, true, false, not, ◌&&◌, Option, none, some, String, List, [], ◌∷◌, length, keep,
  if◌then◌else◌,
}
use self_optimizing_competit.Base.Dict.{Dict, lookup, contains, insert, erase, key_eq}
use self_optimizing_competit.Access.Permissions.{
  Permission, grants, add_permissions, all_permissions,
}

pub data RoleType : Type 0 where
  admin analyst viewer data_manager integration_manager custom : RoleType

pub record Role : Type 0 where
  pub role_id : String
  pub name : String
  pub role_type : RoleType
  pub permissions : List Permission
  pub is_system_role : Bool

pub record User : Type 0 where
  pub user_id : String
  pub username : String
  pub email : String
  pub roles : List String
  pub is_active : Bool
  pub is_system_user : Bool

pub record RbacManager : Type 0 where
  pub roles : Dict Role
  pub users : Dict User

-- `role_id in roles`
abbrev pub is_in : String → List String → Bool
is_in r [] = false
is_in r (q ∷ qs) = let rest = is_in r qs in if key_eq r q then true else rest

-- `User.assign_role`, `remove_role`
abbrev pub assign_role : String → User → User
assign_role r u = record u { roles = if is_in r u.roles then u.roles else r ∷ u.roles }

abbrev pub remove_role : String → User → User
remove_role r u = record u { roles = keep (λ q. not (key_eq q r)) u.roles }

abbrev pub system_role : String → String → RoleType → List Permission → Role
system_role id name kind permissions = record {
  role_id = id;
  name = name;
  role_type = kind;
  permissions = add_permissions permissions [];
  is_system_role = true;
}

abbrev pub analyst_permissions : List Permission
analyst_permissions =
    Permission.data_read ∷ Permission.analysis_create ∷ Permission.analysis_read
    ∷ Permission.analysis_update ∷ Permission.report_read ∷ Permission.user_read
    ∷ Permission.role_list ∷ Permission.audit_read ∷ []

abbrev pub viewer_permissions : List Permission
viewer_permissions =
    Permission.data_read ∷ Permission.analysis_read ∷ Permission.report_read ∷ Permission.user_read
    ∷ []

abbrev pub data_manager_permissions : List Permission
data_manager_permissions =
    Permission.data_read ∷ Permission.data_write ∷ Permission.data_delete ∷ Permission.data_export
    ∷ Permission.analysis_read ∷ Permission.report_read ∷ Permission.audit_read ∷ []

abbrev pub integration_permissions : List Permission
integration_permissions =
    Permission.integration_create ∷ Permission.integration_read ∷ Permission.integration_update
    ∷ Permission.integration_delete ∷ Permission.integration_manage ∷ Permission.settings_read
    ∷ Permission.audit_read ∷ []

-- `_initialize_default_roles`
unfoldable pub init : RbacManager
init = record {
  roles =
      ("role_admin", system_role "role_admin" "Administrator" RoleType.admin all_permissions)
      ∷ ("role_analyst", system_role "role_analyst" "Analyst" RoleType.analyst analyst_permissions)
      ∷ ("role_viewer", system_role "role_viewer" "Viewer" RoleType.viewer viewer_permissions)
      ∷ (
        "role_data_manager",
        system_role "role_data_manager" "Data Manager" RoleType.data_manager
            data_manager_permissions,
      )
      ∷ (
        "role_integration_manager",
        system_role "role_integration_manager" "Integration Manager" RoleType.integration_manager
            integration_permissions,
      )
      ∷ [];
  users = [];
}

-- `none` is the ValueError for an identifier that is taken.
unfoldable pub create_role : String → String → List Permission → RbacManager → Option RbacManager
create_role id name permissions m =
    if contains id m.roles
    then none
    else some (record m {
      roles =
          insert id
            (record {
              role_id = id;
              name = name;
              role_type = RoleType.custom;
              permissions = add_permissions permissions [];
              is_system_role = false;
            })
            m.roles;
    })

abbrev pub remove_from_all : String → Dict User → Dict User
remove_from_all r [] = []
remove_from_all r ((k, u) ∷ users) =
    let rest = remove_from_all r users in (k, if is_in r u.roles then remove_role r u else u) ∷ rest

unfoldable pub delete_role : String → RbacManager → Bool × RbacManager
delete_role id m = elim (lookup id m.roles) [
  | none ↦ (false, m)
  | some role ↦
      if role.is_system_role
      then (false, m)
      else (true, record { roles = erase id m.roles; users = remove_from_all id m.users })
]

unfoldable pub create_user : String → String → String → RbacManager → Option RbacManager
create_user id username email m =
    if contains id m.users
    then none
    else some (record m {
      users =
          insert id
            (record {
              user_id = id;
              username = username;
              email = email;
              roles = [];
              is_active = true;
              is_system_user = false;
            })
            m.users;
    })

unfoldable pub delete_user : String → RbacManager → Bool × RbacManager
delete_user id m = elim (lookup id m.users) [
  | none ↦ (false, m)
  | some u ↦ if u.is_system_user then (false, m) else (true, record m { users = erase id m.users })
]

unfoldable pub assign_role_to_user : String → String → RbacManager → Bool × RbacManager
assign_role_to_user user role m = elim (lookup user m.users) [
  | none ↦ (false, m)
  | some u ↦
      if contains role m.roles
      then (true, record m { users = insert user (assign_role role u) m.users })
      else (false, m)
]

unfoldable pub remove_role_from_user : String → String → RbacManager → Bool × RbacManager
remove_role_from_user user role m = elim (lookup user m.users) [
  | none ↦ (false, m)
  | some u ↦ (true, record m { users = insert user (remove_role role u) m.users })
]

abbrev pub permissions_of : Option Role → List Permission
permissions_of none = []
permissions_of (some role) = role.permissions

-- A loop of `check_permission`: whether a role of the list grants the permission.
abbrev pub any_grants : Dict Role → Permission → List String → Bool
any_grants roles p [] = false
any_grants roles p (r ∷ rs) =
    let rest = any_grants roles p rs in
    if grants p (permissions_of (lookup r roles)) then true else rest

unfoldable pub check_permission : String → Permission → RbacManager → Bool
check_permission user p m = elim (lookup user m.users) [
  | none ↦ false
  | some u ↦
      if not u.is_active
      then false
      else if any_grants m.roles Permission.admin u.roles
      then true
      else any_grants m.roles p u.roles
]

abbrev pub collect : Dict Role → List String → List Permission → List Permission
collect roles [] ps = ps
collect roles (r ∷ rs) ps = collect roles rs (add_permissions (permissions_of (lookup r roles)) ps)

unfoldable pub get_user_permissions : String → RbacManager → List Permission
get_user_permissions user m = elim (lookup user m.users) [
  | none ↦ []
  | some u ↦ collect m.roles u.roles []
]

unfoldable pub get_role_permissions : String → RbacManager → List Permission
get_role_permissions role m = permissions_of (lookup role m.roles)
