-- ===== src/RateLimit/Quota/Isolation.antt =====
-- The manager keeps the clients apart.
use mathlib.Core.Path.{subst}
use mathlib.Core.Option
use self_optimizing_competit.Base.{
  ℕ, ◌≡◌, ◌&&◌, true, none, some, String, arith, if◌then◌else◌, Bool-cases, Option-cases, [], ◌∷◌,
  inl, inr,
}
use self_optimizing_competit.Base.Dict.{
  Dict, lookup, insert, erase, key_eq, key_eq_iff, IsDict, lookup-insert, lookup-erase,
}
use self_optimizing_competit.RateLimit.Quota.{
  ClientQuota, QuotaConfig, QuotaManager, find, clients_of, init, consume, put_quota, add_quota,
  check_quota, remove_quota,
}

find-put_quota :
    (resource client r c : String) (q : ClientQuota) (m : QuotaManager)
    → find r c (put_quota resource client q m)
      ≡ (if key_eq resource r && key_eq client c then some q else find r c m)
unfolding put_quota
find-put_quota resource client r c q m = ground (
  arith,
  key_eq_iff resource r,
  lookup-insert resource r (insert client q (clients_of resource m)) m,
  lookup-insert client c q (clients_of resource m),
)

-- No client of the resource is listed twice.
abbrev pub HasDicts : QuotaManager → Type 0
HasDicts [] = Unit
HasDicts ((r, clients) ∷ m) = IsDict clients × HasDicts m

clients-IsDict :
    (r : String) (clients : Dict ClientQuota) (m : QuotaManager)
    → HasDicts m
    → lookup r m ≡ some clients
    → IsDict clients
clients-IsDict r clients [] h e = cc
clients-IsDict r clients ((j, c) ∷ m) h e = elim (Bool-cases (key_eq j r)) [
  | inl same ↦ subst IsDict (cc (rw same at e)) h.0
  | inr other ↦ clients-IsDict r clients m h.1 (rw other at e)
]

find-remove_quota :
    (resource client r c : String) (m : QuotaManager)
    → HasDicts m
    → find r c (remove_quota resource client m)
      ≡ (if key_eq resource r && key_eq client c then none else find r c m)
unfolding remove_quota
find-remove_quota resource client r c m h = elim (Option-cases (lookup resource m)) [
  | inl missing ↦ ground (arith, key_eq_iff resource r)
  | inr (clients, e) ↦ ground (
    arith,
    key_eq_iff resource r,
    lookup-insert resource r (erase client clients) m,
    lookup-erase client c clients,
    clients-IsDict resource clients m h e,
  )
]

find-check_quota :
    (now : ℕ) (resource client r c : String) (amount : ℕ) (m : QuotaManager)
    → (find r c (check_quota now resource client amount m).1 ≡ (
        if key_eq resource r && key_eq client c
        then Option.map (λ q. (consume now amount q).1) (find resource client m)
        else find r c m))
      × ((check_quota now resource client amount m).0
          ≡ Option.get_or
              (Option.map (λ q. (consume now amount q).0) (find resource client m))
              true)
unfolding check_quota
find-check_quota now resource client r c amount m = elim (Option-cases (find resource client m)) [
  | inl missing ↦ (ground (arith, key_eq_iff resource r, key_eq_iff client c), ground arith)
  | inr (q, e) ↦
      (ground (arith, find-put_quota resource client r c (consume now amount q).1 m), ground arith)
]

-- Each operation acts on the quota of one client for one resource: it leaves every other pair as it
-- was, adding makes a fresh quota, checking leaves what `consume` leaves of it (and grants a client
-- without a quota everything, adding nothing), and removing takes it away. (No dict lists a key
-- twice.)
pub quota_isolation :
    (now : ℕ) (config : QuotaConfig) (resource client r c : String) (amount : ℕ) (m : QuotaManager)
    → HasDicts m
    → let mine = key_eq resource r && key_eq client c in
      (find r c (add_quota resource client config now m)
        ≡ (if mine then some (init config now) else find r c m))
      × (find r c (check_quota now resource client amount m).1 ≡ (
          if mine
          then Option.map (λ q. (consume now amount q).1) (find resource client m)
          else find r c m))
      × ((check_quota now resource client amount m).0
          ≡ Option.get_or
              (Option.map (λ q. (consume now amount q).0) (find resource client m))
              true)
      × (find r c (remove_quota resource client m) ≡ (if mine then none else find r c m))
unfolding add_quota
quota_isolation now config resource client r c amount m h = (
  find-put_quota resource client r c (init config now) m,
  (find-check_quota now resource client r c amount m).0,
  (find-check_quota now resource client r c amount m).1,
  find-remove_quota resource client r c m h,
)
