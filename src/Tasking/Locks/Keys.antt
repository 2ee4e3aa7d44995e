-- ===== src/Tasking/Locks/Keys.antt =====
-- The keys of locks, registries and the set of active owners are different keys.
use Prim.Native.String.{◌++◌ as append, slice, len}
use text.Mathlib.TextLemmas.{append_assoc, append_cancel_left}
use text.Mathlib.TextPositions.{slice-append_left}
use pulpcore.Prelude.{
  String, ◌≡◌, refl, sym, ap, ◌∙◌, false, ◌==◌, List, [], ◌∷◌, map, contains, eq_string, eq_of_==,
  ==-refl, Bool-cases, inl, inr,
}
use pulpcore.Tasking.Locks.{
  resource_to_lock_key, get_task_lock_key, get_owner_registry_key, active_owners_key,
}

-- Two keys that begin with different texts of one length are different.
begin : (p q t : String) → slice (append (append p q) t) 0 (len p) ≡ p
begin p q t = ap (λ u. slice u 0 (len p)) (append_assoc p q t) ∙ slice-append_left p (append q t)

module _ (p q p' q' : String) (same : len p ≡ len p') (other : (p == p') ≡ false) where
  apart : (t t' : String) → (append (append p q) t == append (append p' q') t') ≡ false
  apart t t' = elim (Bool-cases (append (append p q) t == append (append p' q') t')) [
    | inl e ↦
        let eq = eq_of_== (append (append p q) t) (append (append p' q') t') e in
        let heads : p ≡ p' =
          sym (begin p q t)
          ∙ ap (λ u. slice u 0 (len p)) eq
          ∙ ap (λ n. slice (append (append p' q') t') 0 n) same
          ∙ begin p' q' t' in
        cc (other, ap (λ u. u == p') heads, ==-refl p')
    | inr differ ↦ differ
  ]

pub registry-lock :
    (owner resource : String)
    → (get_owner_registry_key owner == resource_to_lock_key resource) ≡ false
unfolding get_owner_registry_key resource_to_lock_key
registry-lock = apart "pulp:o" "wner_locks:" "pulp:r" "esource_lock:" refl refl

pub registry-task :
    (owner task_id : String) → (get_owner_registry_key owner == get_task_lock_key task_id) ≡ false
unfolding get_owner_registry_key get_task_lock_key
registry-task = apart "pulp:" "owner_locks:" "task:" "" refl refl

pub active-lock : (resource : String) → (active_owners_key == resource_to_lock_key resource) ≡ false
unfolding active_owners_key resource_to_lock_key
active-lock = apart "pulp:a" "ctive_owner" "pulp:r" "esource_lock:" refl refl "s"

pub active-registry : (owner : String) → (active_owners_key == get_owner_registry_key owner) ≡ false
unfolding active_owners_key get_owner_registry_key
active-registry = apart "pulp:a" "ctive_owner" "pulp:o" "wner_locks:" refl refl "s"

pub active-task : (task_id : String) → (active_owners_key == get_task_lock_key task_id) ≡ false
unfolding active_owners_key get_task_lock_key
active-task = apart "pulp:" "active_owner" "task:" "" refl refl "s"

pub lock-task :
    (resource task_id : String)
    → (resource_to_lock_key resource == get_task_lock_key task_id) ≡ false
unfolding get_task_lock_key resource_to_lock_key
lock-task = apart "pulp:" "resource_lock:" "task:" "" refl refl

pub lock-lock : (x y : String) → (resource_to_lock_key x == resource_to_lock_key y) ≡ (x == y)
unfolding resource_to_lock_key
lock-lock x y = elim (Bool-cases (x == y)) [
  | inl here ↦
      let e : x ≡ y = eq_of_== x y here in rw (here, e) (==-refl (append "pulp:resource_lock:" y))
  | inr other ↦
      elim (Bool-cases (append "pulp:resource_lock:" x == append "pulp:resource_lock:" y)) [
        | inl same ↦
            let e : x ≡ y =
              append_cancel_left "pulp:resource_lock:" x y
                (eq_of_== (append "pulp:resource_lock:" x) (append "pulp:resource_lock:" y) same) in
            cc (ap (λ u. u == y) e, ==-refl y, same)
        | inr differ ↦ differ ∙ sym other
      ]
]

-- Where a key that no resource has is not the key of one of a list.
pub contains-lock_keys :
    (xs : List String) (x : String)
    → contains (map resource_to_lock_key xs) (resource_to_lock_key x) ≡ contains xs x
contains-lock_keys [] x = refl
contains-lock_keys (y ∷ xs) x = rw (lock-lock x y, contains-lock_keys xs x) refl

pub contains-lock_keys_apart :
    (k : String)
    → ((resource : String) → (k == resource_to_lock_key resource) ≡ false)
    → (xs : List String) → contains (map resource_to_lock_key xs) k ≡ false
contains-lock_keys_apart k h [] = refl
contains-lock_keys_apart k h (y ∷ xs) = rw (h y, contains-lock_keys_apart k h xs) refl

-- The test of equality does not mind the order.
pub ==-comm : (x y : String) → (x == y) ≡ (y == x)
==-comm x y = elim (Bool-cases (x == y)) [
  | inl here ↦ let e = eq_of_== x y here in here ∙ sym (ap (λ u. y == u) e ∙ ==-refl y)
  | inr other ↦ elim (Bool-cases (y == x)) [
    | inl there ↦ let e = eq_of_== y x there in absurd (cc (other, ap (λ u. x == u) e, ==-refl x))
    | inr differ ↦ other ∙ sym differ
  ]
]

pub lock-registry :
    (resource owner : String)
    → (resource_to_lock_key resource == get_owner_registry_key owner) ≡ false
lock-registry resource owner =
    ==-comm (resource_to_lock_key resource) (get_owner_registry_key owner)
    ∙ registry-lock owner resource

pub task-registry :
    (task_id owner : String) → (get_task_lock_key task_id == get_owner_registry_key owner) ≡ false
task-registry task_id owner =
    ==-comm (get_task_lock_key task_id) (get_owner_registry_key owner) ∙ registry-task owner task_id

pub task-lock :
    (task_id resource : String)
    → (get_task_lock_key task_id == resource_to_lock_key resource) ≡ false
task-lock task_id resource =
    ==-comm (get_task_lock_key task_id) (resource_to_lock_key resource) ∙ lock-task resource task_id
