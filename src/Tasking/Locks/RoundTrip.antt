-- ===== src/Tasking/Locks/RoundTrip.antt =====
-- Taking locks and giving them back.
use pulpcore.Prelude.{
  String, ◌≡◌, In-All, Option-cases, true_and, false_or, any-append, refl, sym, ap, ◌∙◌, subst,
  Bool, true, false, not, ◌&&◌, ◌||◌, Option, none, some, List, [], ◌∷◌, map, any, contains, ◌==◌,
  eq_string, if◌then◌else◌, Bool-cases, inl, inr, All, arith, ==-refl, eq_of_==,
}
use pulpcore.Tasking.Redis.{Redis, accepts_set, accepts_get}
use pulpcore.Tasking.Locks.{
  Reply, done, wrong_type, is_own, release_script, resource_to_lock_key, get_task_lock_key,
  get_owner_registry_key,
}
use pulpcore.Tasking.Locks.Keys.{
  registry-lock, registry-task, ==-comm, active-registry, active-lock, active-task,
  contains-lock_keys_apart,
}
use pulpcore.Tasking.Redis.{exists_kind}
use pulpcore.Tasking.Locks.{taken, lock_keys, acquire_script, active_owners_key}
use pulpcore.Tasking.Locks.Acquire.{IsFree, Serves, Acquired, own_keys, acquire_script-Acquired}
use pulpcore.Tasking.Locks.Exclusion.{Acquired-Held, own_text, exclusive_text, shared_set}
use pulpcore.Tasking.Locks.ReleaseScript.{Releasable, Released, release_script-Released}

module _ (R : Redis) (owner task_id : String) (exclusive shared : List String) where
  abbrev registry : String
  registry = get_owner_registry_key owner

  abbrev task_key : String
  task_key = get_task_lock_key task_id

  -- The owner is in none of the sets that it asks to share.
  abbrev pub Unshared : R.Db → Type 0
  Unshared d = All (λ r. R.has d (resource_to_lock_key r) owner ≡ false) shared

  -- What a request that took its locks finds when it gives them back.
  Acquired-Releasable :
      (d d' : R.Db)
      → Acquired R owner task_id exclusive shared d d'
      → Releasable R owner task_id exclusive shared d'
  Acquired-Releasable d d' a =
      let held = Acquired-Held R owner task_id exclusive shared d d' a in
      record {
        task = ap accepts_get (
            own_text R owner task_id exclusive shared d' held task_key
              (rw (==-refl task_key) refl));
        texts =
            In-All (λ r. accepts_get (R.kind d' (resource_to_lock_key r)) ≡ true) exclusive
              (λ r m. ap accepts_get (exclusive_text R owner task_id exclusive shared d' held r m));
        sets =
            In-All (λ r. accepts_set (R.kind d' (resource_to_lock_key r)) ≡ true) shared
              (λ r m. ap accepts_set (shared_set R owner task_id exclusive shared d' held r m));
        registered = ap accepts_set (
            R.has-kind d' registry task_key (
              a.has_now registry task_key
              ∙ rw (==-refl registry, ==-refl task_key) (ground arith)));
      }

  -- A key that the request owns is free before.
  free_kind :
      (k : String) (d : R.Db)
      → (names : List String) → any (taken R d) names ≡ false
      → contains (map resource_to_lock_key names) k ≡ true
      → exists_kind (R.kind d k) ≡ false
  free_kind k d [] h c = cc
  free_kind k d (r ∷ names) h c = elim (Bool-cases (k == resource_to_lock_key r)) [
    | inl here ↦
        ap (λ y. exists_kind (R.kind d y)) (eq_of_== k (resource_to_lock_key r) here)
        ∙ (false_or (taken R d r) (any (taken R d) names) h).0
    | inr there ↦
        free_kind k d names (false_or (taken R d r) (any (taken R d) names) h).1 (ground arith)
  ]

  free_own :
      (k : String) (d : R.Db)
      → IsFree R task_id exclusive shared d
      → contains (own_keys R task_id exclusive) k ≡ true
      → exists_kind (R.kind d k) ≡ false
  free_own k d f c = elim (Bool-cases (k == task_key)) [
    | inl here ↦ ap (λ y. exists_kind (R.kind d y)) (eq_of_== k task_key here) ∙ f.task
    | inr there ↦ free_kind k d exclusive f.alone (ground arith)
  ]

  free_text : (k : String) (d : R.Db) → exists_kind (R.kind d k) ≡ false → R.text d k ≡ none
  free_text k d h = elim (Option-cases (R.text d k)) [
    | inl e ↦ e
    | inr (v, e) ↦ let t = R.text-kind d k v e in absurd (cc (h, ap exists_kind t))
  ]

  free_has : (k m : String) (d : R.Db) → exists_kind (R.kind d k) ≡ false → R.has d k m ≡ false
  free_has k m d h = elim (Bool-cases (R.has d k m)) [
    | inr e ↦ e
    | inl e ↦ let t = R.has-kind d k m e in absurd (cc (h, ap exists_kind t))
  ]

  unshared_key :
      (k : String) (d : R.Db) (names : List String)
      → All (λ r. R.has d (resource_to_lock_key r) owner ≡ false) names
      → contains (map resource_to_lock_key names) k ≡ true
      → R.has d k owner ≡ false
  unshared_key k d [] u c = cc
  unshared_key k d (r ∷ names) u c = elim (Bool-cases (k == resource_to_lock_key r)) [
    | inl here ↦ ap (λ y. R.has d y owner) (eq_of_== k (resource_to_lock_key r) here) ∙ u.0
    | inr there ↦ unshared_key k d names u.1 (ground arith)
  ]

  -- Every text and every membership is as it was, but at the set of active owners, which has the owner
  -- besides, and in the registry, which has lost the keys of the request.
  abbrev pub Restored : R.Db → Reply (List String × (List String × Bool)) × R.Db → Type 0
  Restored d (wrong_type, d2) = ⊥
  Restored d (done out, d2) =
      ((k : String) → R.text d2 k ≡ R.text d k)
      × ((k m : String)
          → (k == registry) ≡ false
          → (k == active_owners_key) ≡ false
          → R.has d2 k m ≡ R.has d k m)
      × ((m : String)
          → R.has d2 registry m
            ≡ (R.has d registry m && not (contains (lock_keys R task_key exclusive shared) m)))
      × ((m : String) → R.has d2 active_owners_key m ≡ (R.has d active_owners_key m || m == owner))

  text_back :
      (c : Bool) (t : Option String)
      → (c ≡ true → t ≡ none)
      → (if c && is_own owner (if c then some owner else t)
          then none
          else (if c then some owner else t))
        ≡ t
  text_back true t h = rw (==-refl owner) (sym (h refl))
  text_back false t h = refl

  has_back :
      (c s e h : Bool)
      → (c ≡ true → h ≡ false)
      → ((s && e) ≡ true → h ≡ false)
      → (((s && e) || (if c then false else h)) && not (s && e)) ≡ h
  has_back true s e h p q = rw (p refl) (ground arith)
  has_back false true true h p q = rw (q refl) refl
  has_back false true false h p q = ground arith
  has_back false false e h p q = ground arith

  registry_back :
      (a b s h : Bool) (t : Option String)
      → (((a || (b || s)) || h)
          && not (((a || b) && is_own owner (if a || b then some owner else t)) || s))
        ≡ (h && not (a || (b || s)))
  registry_back true b s h t = rw (==-refl owner) (ground arith)
  registry_back false true s h t = rw (==-refl owner) (ground arith)
  registry_back false false s h t = ground arith

  inactive : (registry == active_owners_key) ≡ false
  inactive = ==-comm registry active_owners_key ∙ active-registry owner

  back :
      (d d1 d2 : R.Db) (out : List String × (List String × Bool))
      → IsFree R task_id exclusive shared d
      → Unshared d
      → Acquired R owner task_id exclusive shared d d1
      → Released R owner task_id exclusive shared d1 d2
      → Restored d (done out, d2)
  back d d1 d2 out f u a r = (
    λ k.
        r.text_now k
        ∙ rw (a.text_now k) (
            text_back (contains (own_keys R task_id exclusive) k) (R.text d k)
              (λ c. free_text k d (free_own k d f c))),
    λ k m other inactive.
        r.has_now k m other
        ∙ rw (a.has_now k m, other, inactive)
            (has_back (contains (own_keys R task_id exclusive) k)
              (contains (map resource_to_lock_key shared) k) (m == owner) (R.has d k m)
              (λ c. free_has k m d (free_own k d f c))
              (λ c.
                let (there, mine) =
                  true_and (contains (map resource_to_lock_key shared) k) (m == owner) c in
                ap (R.has d k) (eq_of_== m owner mine) ∙ unshared_key k d shared u there)),
    λ m.
        let h1 : R.has d1 registry m
            ≡ (contains (lock_keys R task_key exclusive shared) m || R.has d registry m) =
          a.has_now registry m
          ∙ rw
              (
                inactive,
                ==-refl registry,
                contains-lock_keys_apart registry (registry-lock owner) shared,
                registry-task owner task_id,
                contains-lock_keys_apart registry (registry-lock owner) exclusive,
              )
              (ground arith) in
        r.registered m
        ∙ rw
            (
              h1,
              a.text_now m,
              any-append (λ x. m == x) (map resource_to_lock_key exclusive)
                  (map resource_to_lock_key shared),
            )
            (registry_back (m == task_key) (contains (map resource_to_lock_key exclusive) m)
              (contains (map resource_to_lock_key shared) m) (R.has d registry m) (R.text d m)),
    λ m.
        r.has_now active_owners_key m (active-registry owner)
        ∙ rw
            (
              a.has_now active_owners_key m,
              ==-refl active_owners_key,
              active-registry owner,
              contains-lock_keys_apart active_owners_key active-lock shared,
              active-task task_id,
              contains-lock_keys_apart active_owners_key active-lock exclusive,
            )
            (ground arith),
  )

  -- Taking locks and giving them back, for a request that nothing blocks, that shares no resource which
  -- it reserves for itself and that is not yet in the sets it shares, on a server that keeps sets at the
  -- registry and at the set of owners: every text is as it was, and so is every membership but for two
  -- keys. The set of active owners has the owner besides its members from before, and the registry of
  -- the owner has lost every key of the request.
  pub release_script-acquire_script :
      (d : R.Db)
      → IsFree R task_id exclusive shared d
      → Serves R owner d
      → Unshared d
      → Restored d (
          release_script R owner task_key exclusive shared
            (acquire_script R owner task_key exclusive shared d).1)
  release_script-acquire_script d f s u =
      let (d1, e1, a) = acquire_script-Acquired R owner task_id exclusive shared d f s in
      let (d2, out, e2, r) =
        release_script-Released R owner task_id exclusive shared d1 (Acquired-Releasable d d1 a) in
      subst (λ y. Restored d (release_script R owner task_key exclusive shared y))
        (sym (ap (λ y. y.1) e1)) (subst (Restored d) (sym e2) (back d d1 d2 out f u a r))
