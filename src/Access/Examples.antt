-- ===== src/Access/Examples.antt =====
-- Runs on small inputs, and each theorem at an input that meets its hypotheses.
use self_optimizing_competit.Base.{◌≡◌, refl, ◌&&◌, ◌||◌, true, false, [], ◌∷◌}
use self_optimizing_competit.Base.Dict.{lookup}
use self_optimizing_competit.Access
use self_optimizing_competit.Access.Permissions.{Permission, grants}
use self_optimizing_competit.Access.{
  User, RbacManager, check_permission, get_user_permissions, delete_role,
}
use self_optimizing_competit.Access.Granted.{is_active_one, check_permission-get_user_permissions}
use self_optimizing_competit.Access.Deletion.{IsSound}
use self_optimizing_competit.Access.History
use self_optimizing_competit.Access.History.{Reach, reach-IsSound}

-- A viewer.
abbrev staffed : RbacManager
unfolding Access.init
staffed = record Access.init {
  users =
      (
        "u1",
        record {
          user_id = "u1";
          username = "ann";
          email = "ann@example.com";
          roles = "role_viewer" ∷ [];
          is_active = true;
          is_system_user = false;
        },
      )
      ∷ [];
}

viewer_reads : check_permission "u1" Permission.report_read staffed ≡ true
unfolding staffed Access.init check_permission
viewer_reads = refl

viewer_does_not_delete : check_permission "u1" Permission.report_delete staffed ≡ false
unfolding staffed Access.init check_permission
viewer_does_not_delete = refl

check_permission-get_user_permissions_example :
    check_permission "u1" Permission.report_read staffed ≡ (
      is_active_one (lookup "u1" staffed.users)
      && (grants Permission.admin (get_user_permissions "u1" staffed)
          || grants Permission.report_read (get_user_permissions "u1" staffed)))
check_permission-get_user_permissions_example =
    check_permission-get_user_permissions "u1" Permission.report_read staffed

-- The attempt to delete a role of the system.
viewer_deleted : Reach (delete_role "role_viewer" Access.init).1
viewer_deleted = History.next History.here (History.role_deleted "role_viewer")

reach-IsSound_example : IsSound Access.init (delete_role "role_viewer" Access.init).1
reach-IsSound_example = reach-IsSound (delete_role "role_viewer" Access.init).1 viewer_deleted
