-- ===== src/Access/History.antt =====
-- Every history of the manager.
use text.Mathlib.TextEquality.{eq_iff}
use mathlib.Core.Path.{subst}
use self_optimizing_competit.Base.{
  ◌≡◌, refl, true, false, some, String, List, [], arith, Bool-cases, inl, inr, All-map,
}
use self_optimizing_competit.Base.Dict.{contains, insert, lookup-insert, insert-IsDict}
use self_optimizing_competit.Access.Permissions.{Permission, add_permissions}
use self_optimizing_competit.Access.{
  Role, RoleType, User, RbacManager, init, create_role, delete_role, create_user, delete_user,
  assign_role_to_user, remove_role_from_user,
}
use self_optimizing_competit.Access.Deletion.{
  insert_knows, insert-UsersKnown, IsSound, delete_role-IsSound, users-IsSound, delete_user-IsSound,
  remove_role_from_user-IsSound, assign_role_to_user-IsSound,
}

pub data Step (m : RbacManager) : RbacManager → Type 0 where
  role_created :
      {m' : RbacManager} (id name : String) (permissions : List Permission)
      → create_role id name permissions m ≡ some m'
      → Step m m'
  role_deleted : (id : String) → Step m (delete_role id m).1
  user_created :
      {m' : RbacManager} (id username email : String)
      → create_user id username email m ≡ some m'
      → Step m m'
  user_deleted : (id : String) → Step m (delete_user id m).1
  role_assigned : (user role : String) → Step m (assign_role_to_user user role m).1
  role_removed : (user role : String) → Step m (remove_role_from_user user role m).1

pub data Reach : RbacManager → Type 0 where
  here : Reach init
  next : {m m' : RbacManager} → Reach m → Step m m' → Reach m'

module _ (start : RbacManager) where
  insert_role-IsSound :
      (id : String) (role : Role) (m : RbacManager)
      → contains id m.roles ≡ false
      → IsSound start m
      → IsSound start (record m { roles = insert id role m.roles })
  insert_role-IsSound id role m fresh h = record {
    unique = insert-IsDict id role m.roles h.unique;
    known =
        All-map (λ e k. All-map (λ q c. insert_knows id q role m.roles c) e.1.roles k) m.users
          h.known;
    kept = λ j r e s.
        ground (arith, fresh, lookup-insert id j role m.roles, eq_iff id j, h.kept j r e s);
  }

  create_role-IsSound :
      (id name : String) (permissions : List Permission) (m m' : RbacManager)
      → create_role id name permissions m ≡ some m'
      → IsSound start m
      → IsSound start m'
  unfolding create_role
  create_role-IsSound id name permissions m m' e h = elim (Bool-cases (contains id m.roles)) [
    | inl taken ↦ absurd (ground (arith, e, taken))
    | inr fresh ↦
        let made : Role = record {
          role_id = id;
          name = name;
          role_type = RoleType.custom;
          permissions = add_permissions permissions [];
          is_system_role = false;
        } in
        let at_m' : record m { roles = insert id made m.roles } ≡ m' = ground (arith, e, fresh) in
        subst (IsSound start) at_m' (insert_role-IsSound id made m fresh h)
  ]

  create_user-IsSound :
      (id username email : String) (m m' : RbacManager)
      → create_user id username email m ≡ some m'
      → IsSound start m
      → IsSound start m'
  unfolding create_user
  create_user-IsSound id username email m m' e h = elim (Bool-cases (contains id m.users)) [
    | inl taken ↦ absurd (ground (arith, e, taken))
    | inr fresh ↦
        let made : User = record {
          user_id = id;
          username = username;
          email = email;
          roles = [];
          is_active = true;
          is_system_user = false;
        } in
        let at_m' : record m { users = insert id made m.users } ≡ m' = ground (arith, e, fresh) in
        subst (IsSound start) at_m' (
          users-IsSound start (insert id made m.users) m
            (insert-UsersKnown id made m.roles m.users tt h.known) h)
  ]

  step-IsSound : {m m' : RbacManager} → Step m m' → IsSound start m → IsSound start m'
  step-IsSound {m} {m'} (role_created id name ps e) h = create_role-IsSound id name ps m m' e h
  step-IsSound {m} (role_deleted id) h = delete_role-IsSound start id m h
  step-IsSound {m} {m'} (user_created id username email e) h =
      create_user-IsSound id username email m m' e h
  step-IsSound {m} (user_deleted id) h = delete_user-IsSound start id m h
  step-IsSound {m} (role_assigned user role) h = assign_role_to_user-IsSound start user role m h
  step-IsSound {m} (role_removed user role) h = remove_role_from_user-IsSound start user role m h

init-IsSound : IsSound init init
unfolding init
init-IsSound = record {
  unique = (refl, (refl, (refl, (refl, (refl, tt)))));
  known = tt;
  kept = λ id role e s. e;
}

-- After any creations, deletions, assignments and removals, every role that a user has exists: the
-- deletion of a role takes it from all its users. Each of the system roles that the manager
-- begins with is still there, with the permissions that it was given.
pub reach-IsSound : (m : RbacManager) → Reach m → IsSound init m
reach-IsSound m here = init-IsSound
reach-IsSound m (next r st) = step-IsSound init st (reach-IsSound _ r)
