-- ===== src/Access/Deletion.antt =====
-- Roles that are assigned exist, and those of the system stay.
use text.Mathlib.TextEquality.{eq_iff}
use mathlib.Core.Path.{subst}
use self_optimizing_competit.Base.{
  ◌≡◌, true, false, not, some, String, List, [], ◌∷◌, arith, if◌then◌else◌, keep, Bool-cases,
  Option-cases, inl, inr, All,
}
use self_optimizing_competit.Base.Dict.{
  Dict, lookup, contains, insert, erase, key_eq, IsDict, lookup-insert, lookup-erase, erase-IsDict,
}
use self_optimizing_competit.Access.{
  Role, User, RbacManager, is_in, assign_role, remove_role, remove_from_all, delete_role,
  delete_user, assign_role_to_user, remove_role_from_user,
}

-- The roles of the list are known.
abbrev pub AllKnown : Dict Role → List String → Type 0
AllKnown roles rs = All (λ r. contains r roles ≡ true) rs

abbrev pub UsersKnown : Dict Role → Dict User → Type 0
UsersKnown roles users = All (λ e. AllKnown roles e.1.roles) users

pub insert_knows :
    (r q : String) (role : Role) (roles : Dict Role)
    → contains q roles ≡ true
    → contains q (insert r role roles) ≡ true
insert_knows r q role roles h = ground (arith, lookup-insert r q role roles)

-- Without the role itself, the others stay known when it is erased.
keep-AllKnown :
    (r : String) (roles : Dict Role) (rs : List String)
    → IsDict roles
    → AllKnown roles rs
    → AllKnown (erase r roles) (keep (λ q. not (key_eq q r)) rs)
keep-AllKnown r roles [] u h = tt
keep-AllKnown r roles (q ∷ qs) u h =
    ground (arith, lookup-erase r q roles u, eq_iff r q, eq_iff q r, keep-AllKnown r roles qs u h.1)

absent-AllKnown :
    (r : String) (roles : Dict Role) (rs : List String)
    → IsDict roles
    → is_in r rs ≡ false
    → AllKnown roles rs
    → AllKnown (erase r roles) rs
absent-AllKnown r roles [] u out h = tt
absent-AllKnown r roles (q ∷ qs) u out h =
    ground (arith, lookup-erase r q roles u, eq_iff r q, absent-AllKnown r roles qs u)

removed-AllKnown :
    (r : String) (roles : Dict Role) (u : User)
    → IsDict roles
    → AllKnown roles u.roles
    → AllKnown (erase r roles) (if is_in r u.roles then remove_role r u else u).roles
removed-AllKnown r roles u unique h = elim (Bool-cases (is_in r u.roles)) [
  | inl has ↦ rw has (keep-AllKnown r roles u.roles unique h)
  | inr lacks ↦ rw lacks (absent-AllKnown r roles u.roles unique lacks h)
]

remove_from_all-UsersKnown :
    (r : String) (roles : Dict Role) (users : Dict User)
    → IsDict roles
    → UsersKnown roles users
    → UsersKnown (erase r roles) (remove_from_all r users)
remove_from_all-UsersKnown r roles [] unique h = tt
remove_from_all-UsersKnown r roles ((k, u) ∷ users) unique h =
    (removed-AllKnown r roles u unique h.0, remove_from_all-UsersKnown r roles users unique h.1)

pub insert-UsersKnown :
    (k : String) (u : User) (roles : Dict Role) (users : Dict User)
    → AllKnown roles u.roles
    → UsersKnown roles users
    → UsersKnown roles (insert k u users)
insert-UsersKnown k u roles [] new old = (new, tt)
insert-UsersKnown k u roles ((j, w) ∷ users) new old = elim (Bool-cases (key_eq j k)) [
  | inl same ↦ rw same (new, old.1)
  | inr other ↦ rw other (old.0, insert-UsersKnown k u roles users new old.1)
]

erase-UsersKnown :
    (k : String) (roles : Dict Role) (users : Dict User)
    → UsersKnown roles users
    → UsersKnown roles (erase k users)
erase-UsersKnown k roles [] h = tt
erase-UsersKnown k roles ((j, w) ∷ users) h = elim (Bool-cases (key_eq j k)) [
  | inl same ↦ rw same h.1
  | inr other ↦ rw other (h.0, erase-UsersKnown k roles users h.1)
]

lookup-UsersKnown :
    (k : String) (u : User) (roles : Dict Role) (users : Dict User)
    → UsersKnown roles users
    → lookup k users ≡ some u
    → AllKnown roles u.roles
lookup-UsersKnown k u roles [] h e = absurd (ground arith)
lookup-UsersKnown k u roles ((j, w) ∷ users) h e = elim (Bool-cases (key_eq j k)) [
  | inl same ↦
      let at_u : w ≡ u = ground (arith, e, same) in subst (λ x. AllKnown roles x.roles) at_u h.0
  | inr other ↦ lookup-UsersKnown k u roles users h.1 (ground (arith, e, other))
]

kept-AllKnown :
    (r : String) (roles : Dict Role) (rs : List String)
    → AllKnown roles rs
    → AllKnown roles (keep (λ q. not (key_eq q r)) rs)
kept-AllKnown r roles [] h = tt
kept-AllKnown r roles (q ∷ qs) h = ground (arith, kept-AllKnown r roles qs h.1)

assigned-AllKnown :
    (r : String) (roles : Dict Role) (u : User)
    → contains r roles ≡ true
    → AllKnown roles u.roles
    → AllKnown roles (assign_role r u).roles
assigned-AllKnown r roles u known h = elim (Bool-cases (is_in r u.roles)) [
  | inl has ↦ rw has h
  | inr lacks ↦ rw lacks (known, h)
]

-- What holds between the operations: of the users, and of the roles of the system at the start.
pub record IsSound (start m : RbacManager) : Type 0 where
  pub unique : IsDict m.roles
  pub known : UsersKnown m.roles m.users
  pub kept :
      (id : String) (role : Role)
      → lookup id start.roles ≡ some role
      → role.is_system_role ≡ true
      → lookup id m.roles ≡ some role

module _ (start : RbacManager) where
  pub delete_role-IsSound :
      (id : String) (m : RbacManager) → IsSound start m → IsSound start (delete_role id m).1
  unfolding delete_role
  delete_role-IsSound id m h = elim (Option-cases (lookup id m.roles)) [
    | inl absent ↦ rw (absent, delete_role) h
    | inr (role, known) ↦ elim (Bool-cases role.is_system_role) [
      | inl system ↦ rw (known, system, delete_role) h
      | inr custom ↦
          rw (known, custom, delete_role)
            (record {
              unique = erase-IsDict id m.roles h.unique;
              known = remove_from_all-UsersKnown id m.roles m.users h.unique h.known;
              kept = λ j r e s.
                  ground (arith, lookup-erase id j m.roles h.unique, eq_iff id j, h.kept j r e s);
            })
    ]
  ]

  pub users-IsSound :
      (users : Dict User) (m : RbacManager)
      → UsersKnown m.roles users
      → IsSound start m
      → IsSound start (record m { users = users })
  users-IsSound users m k h = record { unique = h.unique; known = k; kept = h.kept }

  pub delete_user-IsSound :
      (id : String) (m : RbacManager) → IsSound start m → IsSound start (delete_user id m).1
  unfolding delete_user
  delete_user-IsSound id m h = elim (Option-cases (lookup id m.users)) [
    | inl absent ↦ rw (absent, delete_user) h
    | inr (u, known) ↦ elim (Bool-cases u.is_system_user) [
      | inl system ↦ rw (known, system, delete_user) h
      | inr custom ↦
          rw (known, custom, delete_user)
            (users-IsSound (erase id m.users) m (erase-UsersKnown id m.roles m.users h.known) h)
    ]
  ]

  pub remove_role_from_user-IsSound :
      (user role : String) (m : RbacManager)
      → IsSound start m
      → IsSound start (remove_role_from_user user role m).1
  unfolding remove_role_from_user
  remove_role_from_user-IsSound user role m h = elim (Option-cases (lookup user m.users)) [
    | inl absent ↦ rw (absent, remove_role_from_user) h
    | inr (u, known) ↦
        rw (known, remove_role_from_user)
          (users-IsSound (insert user (remove_role role u) m.users) m
            (insert-UsersKnown user (remove_role role u) m.roles m.users
              (kept-AllKnown role m.roles u.roles
                (lookup-UsersKnown user u m.roles m.users h.known known))
              h.known)
            h)
  ]

  pub assign_role_to_user-IsSound :
      (user role : String) (m : RbacManager)
      → IsSound start m
      → IsSound start (assign_role_to_user user role m).1
  unfolding assign_role_to_user
  assign_role_to_user-IsSound user role m h = elim (Option-cases (lookup user m.users)) [
    | inl absent ↦ rw (absent, assign_role_to_user) h
    | inr (u, known) ↦ elim (Bool-cases (contains role m.roles)) [
      | inl there ↦
          rw (known, there, assign_role_to_user)
            (users-IsSound (insert user (assign_role role u) m.users) m
              (insert-UsersKnown user (assign_role role u) m.roles m.users
                (assigned-AllKnown role m.roles u there
                  (lookup-UsersKnown user u m.roles m.users h.known known))
                h.known)
              h)
      | inr missing ↦ rw (known, missing, assign_role_to_user) h
    ]
  ]
