-- ===== src/Access/Permissions.antt =====
-- `Permission` of core/infrastructure/security/rbac.py.
use self_optimizing_competit.Base.{Bool, true, false, String, List, [], ◌∷◌, if◌then◌else◌}
use self_optimizing_competit.Base.Dict.{key_eq}

pub data Permission : Type 0 where
  user_create user_read user_update user_delete user_list role_create role_read role_update :
      Permission
  role_delete role_list data_read data_write data_delete data_export analysis_create : Permission
  analysis_read analysis_update analysis_delete report_create report_read report_update : Permission
  report_delete report_publish integration_create integration_read integration_update : Permission
  integration_delete integration_manage settings_read settings_update settings_manage : Permission
  audit_read audit_export security_manage admin : Permission

-- `permission.value`
abbrev pub value_of : Permission → String
value_of Permission.user_create = "user:create"
value_of Permission.user_read = "user:read"
value_of Permission.user_update = "user:update"
value_of Permission.user_delete = "user:delete"
value_of Permission.user_list = "user:list"
value_of Permission.role_create = "role:create"
value_of Permission.role_read = "role:read"
value_of Permission.role_update = "role:update"
value_of Permission.role_delete = "role:delete"
value_of Permission.role_list = "role:list"
value_of Permission.data_read = "data:read"
value_of Permission.data_write = "data:write"
value_of Permission.data_delete = "data:delete"
value_of Permission.data_export = "data:export"
value_of Permission.analysis_create = "analysis:create"
value_of Permission.analysis_read = "analysis:read"
value_of Permission.analysis_update = "analysis:update"
value_of Permission.analysis_delete = "analysis:delete"
value_of Permission.report_create = "report:create"
value_of Permission.report_read = "report:read"
value_of Permission.report_update = "report:update"
value_of Permission.report_delete = "report:delete"
value_of Permission.report_publish = "report:publish"
value_of Permission.integration_create = "integration:create"
value_of Permission.integration_read = "integration:read"
value_of Permission.integration_update = "integration:update"
value_of Permission.integration_delete = "integration:delete"
value_of Permission.integration_manage = "integration:manage"
value_of Permission.settings_read = "settings:read"
value_of Permission.settings_update = "settings:update"
value_of Permission.settings_manage = "settings:manage"
value_of Permission.audit_read = "audit:read"
value_of Permission.audit_export = "audit:export"
value_of Permission.security_manage = "security:manage"
value_of Permission.admin = "admin"

-- `list(Permission)`
abbrev pub all_permissions : List Permission
all_permissions =
    Permission.user_create ∷ Permission.user_read ∷ Permission.user_update ∷ Permission.user_delete
    ∷ Permission.user_list ∷ Permission.role_create ∷ Permission.role_read ∷ Permission.role_update
    ∷ Permission.role_delete ∷ Permission.role_list ∷ Permission.data_read ∷ Permission.data_write
    ∷ Permission.data_delete ∷ Permission.data_export ∷ Permission.analysis_create
    ∷ Permission.analysis_read ∷ Permission.analysis_update ∷ Permission.analysis_delete
    ∷ Permission.report_create ∷ Permission.report_read ∷ Permission.report_update
    ∷ Permission.report_delete ∷ Permission.report_publish ∷ Permission.integration_create
    ∷ Permission.integration_read ∷ Permission.integration_update ∷ Permission.integration_delete
    ∷ Permission.integration_manage ∷ Permission.settings_read ∷ Permission.settings_update
    ∷ Permission.settings_manage ∷ Permission.audit_read ∷ Permission.audit_export
    ∷ Permission.security_manage ∷ Permission.admin ∷ []

-- Members of an enum are equal exactly if their values are.
abbrev pub is_same : Permission → Permission → Bool
is_same p q = key_eq (value_of p) (value_of q)

-- `permission in permissions`
abbrev pub grants : Permission → List Permission → Bool
grants p [] = false
grants p (q ∷ qs) = let rest = grants p qs in if is_same p q then true else rest

-- `permissions.add(permission)`
abbrev pub add_permission : Permission → List Permission → List Permission
add_permission p ps = if grants p ps then ps else p ∷ ps

-- `permissions.update(more)`
abbrev pub add_permissions : List Permission → List Permission → List Permission
add_permissions [] ps = ps
add_permissions (q ∷ qs) ps = add_permissions qs (add_permission q ps)
