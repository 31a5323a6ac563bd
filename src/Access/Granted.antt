-- ===== src/Access/Granted.antt =====
-- What a user may do, against the permissions of the user's roles.
use text.Mathlib.TextEquality.{eq_iff}
use self_optimizing_competit.Base.{
  ◌≡◌, refl, ap, Bool, false, ◌&&◌, ◌||◌, Option, none, some, String, List, [], ◌∷◌, arith,
  Option-cases, inl, inr,
}
use self_optimizing_competit.Base.Dict.{Dict, lookup, key_eq}
use self_optimizing_competit.Access.Permissions.{
  Permission, value_of, is_same, grants, add_permission, add_permissions,
}
use self_optimizing_competit.Access.{
  Role, User, RbacManager, permissions_of, any_grants, check_permission, collect,
  get_user_permissions,
}

grants_same :
    (p q : Permission) (ps : List Permission) → value_of p ≡ value_of q → grants p ps ≡ grants q ps
grants_same p q [] e = refl
grants_same p q (r ∷ rs) e =
    let first : is_same p r ≡ is_same q r = ap (λ v. key_eq v (value_of r)) e in
    rw (first, grants_same p q rs e) refl

grants-add_permission :
    (p q : Permission) (ps : List Permission)
    → grants p (add_permission q ps) ≡ (is_same p q || grants p ps)
grants-add_permission p q ps = ground (arith, grants_same p q ps, eq_iff (value_of p) (value_of q))

grants-add_permissions :
    (p : Permission) (qs ps : List Permission)
    → grants p (add_permissions qs ps) ≡ (grants p qs || grants p ps)
grants-add_permissions p [] ps = refl
grants-add_permissions p (q ∷ qs) ps =
    ground (arith, grants-add_permissions p qs (add_permission q ps), grants-add_permission p q ps)

grants-collect :
    (roles : Dict Role) (p : Permission) (rs : List String) (ps : List Permission)
    → grants p (collect roles rs ps) ≡ (any_grants roles p rs || grants p ps)
grants-collect roles p [] ps = refl
grants-collect roles p (r ∷ rs) ps =
    let more = permissions_of (lookup r roles) in
    ground
      (arith, grants-collect roles p rs (add_permissions more ps), grants-add_permissions p more ps)

abbrev pub is_active_one : Option User → Bool
is_active_one none = false
is_active_one (some u) = u.is_active

-- A check says yes exactly for an active user with the permission, or the one of administrators,
-- among the permissions that are listed for the user. Unknown and inactive users are refused, and
-- roles that are unknown grant nothing.
pub check_permission-get_user_permissions :
    (user : String) (p : Permission) (m : RbacManager)
    → check_permission user p m ≡ (
        is_active_one (lookup user m.users)
        && (grants Permission.admin (get_user_permissions user m)
            || grants p (get_user_permissions user m)))
unfolding check_permission get_user_permissions
check_permission-get_user_permissions user p m = elim (Option-cases (lookup user m.users)) [
  | inl absent ↦ rw (absent, check_permission, get_user_permissions) refl
  | inr (u, known) ↦
      rw (known, check_permission, get_user_permissions)
        (rw
          (grants-collect m.roles Permission.admin u.roles [], grants-collect m.roles p u.roles [])
          (ground arith))
]
