-- ===== src/Balancing/Registry/Index.antt =====
-- The index by service name against the registry by identifier.
use self_optimizing_competit.Base.{
  ℕ, ◌≡◌, refl, sym, ap, ◌∙◌, Bool, false, none, some, String, List, [], ◌∷◌, ◌++◌, arith, keep,
  keep-append, Bool-cases, Option-cases, inl, inr,
}
use mathlib.Core.List.{append-nil}
use text.Mathlib.TextEquality.{eq_iff}
use self_optimizing_competit.Base.Dict.{
  Dict, lookup, insert, erase, key_eq, IsDict, lookup-insert, insert-IsDict, erase-IsDict,
}
use self_optimizing_competit.Balancing.Registry.{
  Heap, write, ServiceInstance, ServiceHealth, ServiceRegistry, init, or_empty, get_instances,
  register, without, unlist, deregister, update_health, values, list_all,
}
use self_optimizing_competit.Balancing.Selection.{LoadBalancer, count_request, record_request}

-- Every entry stands under the identifier of its instance.
abbrev pub IsKeyed : Heap → Dict ℕ → Type 0
IsKeyed heap [] = Unit
IsKeyed heap ((k, r) ∷ d) = ((heap r).id ≡ k) × IsKeyed heap d

abbrev pub of_service : Heap → String → ℕ → Bool
of_service heap name r = key_eq (heap r).name name

-- The registry has one entry for each identifier, and the index lists under a name the entries of
-- that name, in the order of the registry.
pub record IsIndexed (s : ServiceRegistry) : Type 0 where
  pub unique : IsDict s.registry
  pub keyed : IsKeyed s.heap s.registry
  pub indexed :
      (name : String) → get_instances name s ≡ keep (of_service s.heap name) (values s.registry)

values-insert :
    (k : String) (r : ℕ) (d : Dict ℕ)
    → lookup k d ≡ none
    → values (insert k r d) ≡ values d ++ (r ∷ [])
values-insert k r [] h = refl
values-insert k r ((j, q) ∷ d) h = ground (arith, values-insert k r d)

insert-IsKeyed :
    (heap : Heap) (r : ℕ) (d : Dict ℕ) → IsKeyed heap d → IsKeyed heap (insert (heap r).id r d)
insert-IsKeyed heap r [] h = (refl, tt)
insert-IsKeyed heap r ((j, q) ∷ d) h =
    ground (arith, eq_iff j (heap r).id, insert-IsKeyed heap r d h.1)

erase-IsKeyed : (heap : Heap) (k : String) (d : Dict ℕ) → IsKeyed heap d → IsKeyed heap (erase k d)
erase-IsKeyed heap k [] h = tt
erase-IsKeyed heap k ((j, q) ∷ d) h = ground (arith, erase-IsKeyed heap k d h.1)

-- Without an entry for `k`, no instance has that identifier.
without-absent :
    (heap : Heap) (k : String) (p : ℕ → Bool) (d : Dict ℕ)
    → IsKeyed heap d
    → lookup k d ≡ none
    → without heap k (keep p (values d)) ≡ keep p (values d)
without-absent heap k p [] h e = refl
without-absent heap k p ((j, q) ∷ d) h e = ground (arith, without-absent heap k p d h.1)

without-erase :
    (heap : Heap) (k : String) (p : ℕ → Bool) (d : Dict ℕ)
    → IsDict d
    → IsKeyed heap d
    → keep p (values (erase k d)) ≡ without heap k (keep p (values d))
without-erase heap k p [] u h = refl
without-erase heap k p ((j, q) ∷ d) u h =
    ground (arith, eq_iff j k, without-erase heap k p d u.1 h.1, without-absent heap k p d h.1)

-- An entry that the test passes over may as well be erased.
keep-erase :
    (k : String) (r : ℕ) (p : ℕ → Bool) (d : Dict ℕ)
    → lookup k d ≡ some r
    → p r ≡ false
    → keep p (values (erase k d)) ≡ keep p (values d)
keep-erase k r p [] e out = refl
keep-erase k r p ((j, q) ∷ d) e out = ground (arith, keep-erase k r p d)

keep-cong : (p q : ℕ → Bool) → ((r : ℕ) → p r ≡ q r) → (refs : List ℕ) → keep p refs ≡ keep q refs
keep-cong p q h [] = refl
keep-cong p q h (r ∷ refs) = ground (arith, h r, keep-cong p q h refs)

-- `register` at one name, with the test of the new instance computed.
register_at :
    (r : ℕ) (name : String) (s : ServiceRegistry)
    → lookup (s.heap r).id s.registry ≡ none
    → IsIndexed s
    → get_instances name (register r s)
      ≡ keep (of_service s.heap name) (values (register r s).registry)
unfolding register
register_at r name s fresh h =
    let i = s.heap r in
    let p = of_service s.heap name in
    let refs = get_instances i.name s ++ (r ∷ []) in
    rw (values-insert i.id r s.registry fresh, keep-append p (values s.registry) (r ∷ []))
      (elim (Bool-cases (key_eq i.name name)) [
        | inl same ↦
            let here : get_instances i.name s ≡ keep p (values s.registry) =
              ap (λ n. get_instances n s) ((eq_iff i.name name).0 same) ∙ h.indexed name in
            rw (lookup-insert i.name name refs s.instances, same) (ap (λ l. l ++ (r ∷ [])) here)
        | inr other ↦
            rw (lookup-insert i.name name refs s.instances, other)
              (h.indexed name ∙ sym (append-nil _))
      ])

register-IsIndexed :
    (r : ℕ) (s : ServiceRegistry)
    → lookup (s.heap r).id s.registry ≡ none
    → IsIndexed s
    → IsIndexed (register r s)
unfolding register
register-IsIndexed r s fresh h = record {
  unique = insert-IsDict (s.heap r).id r s.registry h.unique;
  keyed = insert-IsKeyed s.heap r s.registry h.keyed;
  indexed = λ name. register_at r name s fresh h;
}

unlist_own :
    (heap : Heap) (name k : String) (instances : Dict (List ℕ))
    → or_empty (lookup name (unlist heap name k instances))
      ≡ without heap k (or_empty (lookup name instances))
unlist_own heap name k instances = elim (Option-cases (lookup name instances)) [
  | inl absent ↦ ground arith
  | inr (refs, known) ↦
      ground (arith, eq_iff name name, lookup-insert name name (without heap k refs) instances)
]

unlist_other :
    (heap : Heap) (own name k : String) (instances : Dict (List ℕ))
    → key_eq own name ≡ false
    → or_empty (lookup name (unlist heap own k instances)) ≡ or_empty (lookup name instances)
unlist_other heap own name k instances other = elim (Option-cases (lookup own instances)) [
  | inl absent ↦ ground arith
  | inr (refs, known) ↦ ground (arith, lookup-insert own name (without heap k refs) instances)
]

-- The lists of the index, when the instance `r` is taken off its own.
unlist_at :
    (k : String) (r : ℕ) (name : String) (s : ServiceRegistry)
    → lookup k s.registry ≡ some r
    → IsIndexed s
    → or_empty (lookup name (unlist s.heap (s.heap r).name k s.instances))
      ≡ keep (of_service s.heap name) (values (erase k s.registry))
unlist_at k r name s known h =
    let own = (s.heap r).name in
    let p = of_service s.heap name in
    elim (Bool-cases (key_eq own name)) [
      | inl same ↦
          let at_name : own ≡ name = (eq_iff own name).0 same in
          ap (λ n. or_empty (lookup n (unlist s.heap own k s.instances))) (sym at_name)
          ∙ unlist_own s.heap own k s.instances
          ∙ ap (without s.heap k) (ap (λ n. get_instances n s) at_name ∙ h.indexed name)
          ∙ sym (without-erase s.heap k p s.registry h.unique h.keyed)
      | inr other ↦
          unlist_other s.heap own name k s.instances other
          ∙ h.indexed name
          ∙ sym (keep-erase k r p s.registry known other)
    ]

deregister-IsIndexed :
    (k : String) (s : ServiceRegistry) → IsIndexed s → IsIndexed (deregister k s).1
unfolding deregister
deregister-IsIndexed k s h = elim (Option-cases (lookup k s.registry)) [
  | inl absent ↦ rw (absent, deregister) h
  | inr (r, known) ↦
      rw (known, deregister)
        (record {
          unique = erase-IsDict k s.registry h.unique;
          keyed = erase-IsKeyed s.heap k s.registry h.keyed;
          indexed = λ name. unlist_at k r name s known h;
        })
]

-- What leaves identifiers and names alone leaves the index alone.
renamed-IsKeyed :
    (heap heap' : Heap) (d : Dict ℕ)
    → ((r : ℕ) → (heap' r).id ≡ (heap r).id)
    → IsKeyed heap d
    → IsKeyed heap' d
renamed-IsKeyed heap heap' [] same h = tt
renamed-IsKeyed heap heap' ((k, r) ∷ d) same h =
    (same r ∙ h.0, renamed-IsKeyed heap heap' d same h.1)

write-IsIndexed :
    (r : ℕ) (i : ServiceInstance) (s : ServiceRegistry)
    → i.id ≡ (s.heap r).id
    → i.name ≡ (s.heap r).name
    → IsIndexed s
    → IsIndexed (record s { heap = write r i s.heap })
write-IsIndexed r i s same_id same_name h = record {
  unique = h.unique;
  keyed = renamed-IsKeyed s.heap (write r i s.heap) s.registry (λ q. ground arith) h.keyed;
  indexed = λ name.
      h.indexed name
      ∙ keep-cong (of_service s.heap name) (of_service (write r i s.heap) name) (λ q. ground arith)
          (values s.registry);
}

update_health-IsIndexed :
    (now : ℕ) (k : String) (status : ServiceHealth) (s : ServiceRegistry)
    → IsIndexed s
    → IsIndexed (update_health now k status s).1
unfolding update_health
update_health-IsIndexed now k status s h = elim (Option-cases (lookup k s.registry)) [
  | inl absent ↦ rw (absent, update_health) h
  | inr (r, known) ↦ rw (known, update_health) (write-IsIndexed r _ s refl refl h)
]

-- The registry changes by its operations, and by what a load balancer records of requests.
pub data Step (s : ServiceRegistry) : ServiceRegistry → Type 0 where
  registered : (r : ℕ) → lookup (s.heap r).id s.registry ≡ none → Step s (register r s)
  deregistered : (k : String) → Step s (deregister k s).1
  checked :
      (now : ℕ) (k : String) (status : ServiceHealth) → Step s (update_health now k status s).1
  served :
      (now r : ℕ) (success : Bool) (time : ℕ) (b : LoadBalancer)
      → Step s (record_request now r success time s b).0

pub data Reach (heap : Heap) : ServiceRegistry → Type 0 where
  here : Reach heap (init heap)
  next : {s t : ServiceRegistry} → Reach heap s → Step s t → Reach heap t

step-IsIndexed : {s t : ServiceRegistry} → Step s t → IsIndexed s → IsIndexed t
unfolding record_request count_request
step-IsIndexed {s} (registered r fresh) h = register-IsIndexed r s fresh h
step-IsIndexed {s} (deregistered k) h = deregister-IsIndexed k s h
step-IsIndexed {s} (checked now k status) h = update_health-IsIndexed now k status s h
step-IsIndexed {s} (served now r success time b) h = write-IsIndexed r _ s refl refl h

reach_invariant : (heap : Heap) {s : ServiceRegistry} → Reach heap s → IsIndexed s
unfolding init
reach_invariant heap here = record { unique = tt; keyed = tt; indexed = λ name. refl }
reach_invariant heap (next r st) = step-IsIndexed st (reach_invariant heap r)

-- After any registrations under identifiers that are not taken, removals, health updates and
-- recorded requests, the registry holds one instance for each identifier, under its own, and the
-- instances of a service are the registered instances of its name, in the order of registration.
pub reach-IsIndexed :
    (heap : Heap) (s : ServiceRegistry)
    → Reach heap s
    → IsDict s.registry
      × IsKeyed s.heap s.registry
      × ((name : String) → get_instances name s ≡ keep (of_service s.heap name) (list_all s))
unfolding list_all
reach-IsIndexed heap s r = let h = reach_invariant heap r in (h.unique, h.keyed, h.indexed)
