-- ===== src/Access/Listings.antt =====
-- The readings of `RBACManager`, and the methods of `Role` and `User` that take rights away, of
-- core/infrastructure/security/rbac.py.
use Prim.Native.Nat.{Ordering}
use Prim.Native.String.{compare}
use self_optimizing_competit.Base.{
  ℕ, ◌+◌, ◌≡◌, refl, Bool, true, false, not, Option, String, List, [], ◌∷◌, length, keep, count,
  arith, if◌then◌else◌,
}
use self_optimizing_competit.Base.Dict.{Dict, lookup}
use self_optimizing_competit.Access.{Role, User, RbacManager}
use self_optimizing_competit.Access.Permissions.{Permission, is_same, all_permissions}

unfoldable pub revoke_permission : Permission → Role → Role
revoke_permission p r = record r { permissions = keep (λ q. not (is_same q p)) r.permissions }

unfoldable pub revoke_all_permissions : Role → Role
revoke_all_permissions r = record r { permissions = [] }

unfoldable pub clear_roles : User → User
clear_roles u = record u { roles = [] }

unfoldable pub get_role : String → RbacManager → Option Role
get_role role_id m = lookup role_id m.roles

unfoldable pub get_user : String → RbacManager → Option User
get_user user_id m = lookup user_id m.users

abbrev pub is_after : Ordering → Bool
is_after Ordering.lt = false
is_after Ordering.eq = false
is_after Ordering.gt = true

-- `sorted(xs, key=name)`, which is stable
module _ {A : Type 0} (name : A → String) where
  abbrev pub sort_in : A → List A → List A
  sort_in x [] = x ∷ []
  sort_in x (y ∷ ys) = if is_after (compare (name x) (name y)) then y ∷ sort_in x ys else x ∷ y ∷ ys

  abbrev pub sorted : List A → List A
  sorted [] = []
  sorted (x ∷ xs) = sort_in x (sorted xs)

abbrev pub values : {A : Type 0} → Dict A → List A
values [] = []
values ((k, x) ∷ d) = x ∷ values d

unfoldable pub list_roles : Bool → RbacManager → List Role
list_roles include_system m =
    sorted (λ r. r.name)
      (if include_system then values m.roles else keep (λ r. not r.is_system_role) (values m.roles))

unfoldable pub list_users : Bool → RbacManager → List User
list_users active_only m =
    sorted (λ u. u.username)
      (if active_only then keep (λ u. u.is_active) (values m.users) else values m.users)

pub record RbacStatistics : Type 0 where
  pub total_users : ℕ
  pub active_users : ℕ
  pub total_roles : ℕ
  pub system_roles : ℕ
  pub custom_roles : ℕ
  pub total_permissions : ℕ

unfoldable pub get_statistics : RbacManager → RbacStatistics
get_statistics m = record {
  total_users = length m.users;
  active_users = count (λ u. u.is_active) (values m.users);
  total_roles = length m.roles;
  system_roles = count (λ r. r.is_system_role) (values m.roles);
  custom_roles = count (λ r. not r.is_system_role) (values m.roles);
  total_permissions = length all_permissions;
}

count_both :
    (d : Dict Role)
    → count (λ r. r.is_system_role) (values d) + count (λ r. not r.is_system_role) (values d)
      ≡ length d
count_both [] = refl
count_both ((k, r) ∷ d) = ground (arith, count_both d)

-- System and custom roles are all the roles.
get_statistics_total :
    (m : RbacManager)
    → (get_statistics m).system_roles + (get_statistics m).custom_roles
      ≡ (get_statistics m).total_roles
unfolding get_statistics
get_statistics_total m = count_both m.roles
