-- ===== src/Tasking/Locks/Exclusion.antt =====
-- Locks that are held keep conflicting requests out.
use pulpcore.Prelude.{
  String, ◌≡◌, refl, sym, ap, ◌∙◌, subst, true, false, not, List, filter, any, contains, eq_string,
  Bool-cases, inl, inr, ◌⊎◌, some, ◌↔◌, Bool, [], ◌∷◌, In-filter, filter-In, In, In-any,
  In-contains, arith, ==-refl,
}
use pulpcore.Tasking.Redis.{Kind, Redis, exists_kind, is_text}
use pulpcore.Tasking.Locks.{
  Reply, done, wrong_type, taken, exclusively_held, acquire_script, is_empty, resource_to_lock_key,
  get_task_lock_key,
}
use pulpcore.Tasking.Locks.Keys.{contains-lock_keys}
use pulpcore.Tasking.Locks.Acquire.{
  any-filter, IsFree, Serves, Acquired, own_keys, acquire_script-Acquired,
}

-- Two requests that must not hold their locks together: they are for one task, or one of them
-- uses a resource that the other reserves for itself.
pub data Overlap (task_id : String) (exclusive shared : List String) (task_id' : String)
    (exclusive' shared' : List String) : Type 0 where
  same_task : task_id ≡ task_id' → Overlap task_id exclusive shared task_id' exclusive' shared'
  both_exclusive :
      (r : String)
      → In r exclusive
      → In r exclusive'
      → Overlap task_id exclusive shared task_id' exclusive' shared'
  exclusive_shared :
      (r : String)
      → In r exclusive
      → In r shared'
      → Overlap task_id exclusive shared task_id' exclusive' shared'
  shared_exclusive :
      (r : String)
      → In r shared
      → In r exclusive'
      → Overlap task_id exclusive shared task_id' exclusive' shared'

module _ (R : Redis) where
  -- What stands in the way of a request.
  abbrev pub Blocked : String → List String → List String → R.Db → Type 0
  Blocked task_id exclusive shared d =
      (exists_kind (R.kind d (get_task_lock_key task_id)) ≡ true)
      ⊎ ((any (taken R d) exclusive ≡ true) ⊎ (any (exclusively_held R d) shared ≡ true))

  -- The names of an answer are what stands in the way: the task lock, or else those of the exclusive
  -- resources that are taken, or else those of the shared resources that are held exclusively; all of
  -- them, and no other.
  pub data Blocking (task_id : String) (exclusive shared : List String) (d : R.Db)
      (names : List String) : Type 0 where
    task_lock :
        exists_kind (R.kind d (get_task_lock_key task_id)) ≡ true
        → names ≡ "__task_lock__" ∷ []
        → Blocking task_id exclusive shared d names
    exclusively_asked :
        exists_kind (R.kind d (get_task_lock_key task_id)) ≡ false
        → ((r : String) → In r names ↔ (In r exclusive × (taken R d r ≡ true)))
        → Blocking task_id exclusive shared d names
    shared_asked :
        exists_kind (R.kind d (get_task_lock_key task_id)) ≡ false
        → any (taken R d) exclusive ≡ false
        → ((r : String) → In r names ↔ (In r shared × (exclusively_held R d r ≡ true)))
        → Blocking task_id exclusive shared d names

  -- The request fails: it names what blocks it and leaves the server as it was.
  abbrev pub Refused :
      String → List String → List String → R.Db → Reply (List String) × R.Db → Type 0
  Refused task_id exclusive shared d (done names, d') =
      (is_empty names ≡ false) × (d' ≡ d) × Blocking task_id exclusive shared d names
  Refused task_id exclusive shared d (wrong_type, d') = ⊥

  In-filter_iff :
      (p : String → Bool) (xs : List String) (r : String)
      → In r (filter p xs) ↔ (In r xs × (p r ≡ true))
  In-filter_iff p xs r = (In-filter p r xs, λ (m, h). filter-In p r xs m h)

  pub acquire_script-Refused :
      (owner task_id : String) (exclusive shared : List String) (d : R.Db)
      → Blocked task_id exclusive shared d
      → Refused task_id exclusive shared d
          (acquire_script R owner (get_task_lock_key task_id) exclusive shared d)
  unfolding acquire_script
  acquire_script-Refused owner task_id exclusive shared d b =
      elim (Bool-cases (exists_kind (R.kind d (get_task_lock_key task_id)))) [
        | inl there ↦ rw there (refl, refl, task_lock there refl)
        | inr free ↦ elim (Bool-cases (is_empty (filter (taken R d) exclusive))) [
          | inr some_taken ↦
              rw (free, some_taken)
                (some_taken, refl, exclusively_asked free (In-filter_iff (taken R d) exclusive))
          | inl none_taken ↦ elim (Bool-cases (is_empty (filter (exclusively_held R d) shared))) [
            | inr some_held ↦
                rw (free, none_taken, some_held)
                  (
                    some_held,
                    refl,
                    shared_asked free (any-filter (taken R d) exclusive ∙ ap not none_taken)
                        (In-filter_iff (exclusively_held R d) shared),
                  )
            | inl none_held ↦ absurd (elim b [
              | inl t ↦ cc (t, free)
              | inr (inl t) ↦ cc (t, any-filter (taken R d) exclusive, ap not none_taken)
              | inr (inr t) ↦ cc (t, any-filter (exclusively_held R d) shared, ap not none_held)
            ])
          ]
        ]
      ]

  -- The owner holds the locks of a request.
  pub record Held (owner task_id : String) (exclusive shared : List String) (d : R.Db)
      : Type 0 where
    pub texts :
        (k : String) → contains (own_keys R task_id exclusive) k ≡ true → R.text d k ≡ some owner
    pub members : (r : String) → In r shared → R.has d (resource_to_lock_key r) owner ≡ true

  pub Acquired-Held :
      (owner task_id : String) (exclusive shared : List String) (d d' : R.Db)
      → Acquired R owner task_id exclusive shared d d'
      → Held owner task_id exclusive shared d'
  Acquired-Held owner task_id exclusive shared d d' a = record {
    texts = λ k h. a.text_now k ∙ rw h refl;
    members = λ r m.
        a.has_now (resource_to_lock_key r) owner
        ∙ rw (contains-lock_keys shared r, In-contains r shared m, ==-refl owner) (ground arith);
  }

  module _ (owner task_id : String) (exclusive shared : List String) (d' : R.Db)
      (a : Held owner task_id exclusive shared d') where
    -- The keys that the request owns are texts, those that it shares are sets.
    pub own_text :
        (k : String)
        → contains (own_keys R task_id exclusive) k ≡ true
        → R.kind d' k ≡ Kind.text_key
    own_text k h = R.text-kind d' k owner (a.texts k h)

    pub exclusive_text :
        (r : String) → In r exclusive → R.kind d' (resource_to_lock_key r) ≡ Kind.text_key
    exclusive_text r m =
        own_text (resource_to_lock_key r)
          (rw (contains-lock_keys exclusive r, In-contains r exclusive m) (ground arith))

    pub shared_set : (r : String) → In r shared → R.kind d' (resource_to_lock_key r) ≡ Kind.set_key
    shared_set r m = R.has-kind d' (resource_to_lock_key r) owner (a.members r m)

    Overlap-Blocked :
        (task_id' : String) (exclusive' shared' : List String)
        → Overlap task_id exclusive shared task_id' exclusive' shared'
        → Blocked task_id' exclusive' shared' d'
    Overlap-Blocked task_id' exclusive' shared' (same_task e) = inl (
        ap (λ t. exists_kind (R.kind d' (get_task_lock_key t))) (sym e)
        ∙ ap exists_kind
            (own_text (get_task_lock_key task_id) (rw (==-refl (get_task_lock_key task_id)) refl)))
    Overlap-Blocked task_id' exclusive' shared' (both_exclusive r m m') =
        inr (inl (In-any (taken R d') r exclusive' m' (ap exists_kind (exclusive_text r m))))
    Overlap-Blocked task_id' exclusive' shared' (exclusive_shared r m m') =
        inr (inr (In-any (exclusively_held R d') r shared' m' (ap is_text (exclusive_text r m))))
    Overlap-Blocked task_id' exclusive' shared' (shared_exclusive r m m') =
        inr (inl (In-any (taken R d') r exclusive' m' (ap exists_kind (shared_set r m))))

    pub Held-Refused :
        (owner' task_id' : String) (exclusive' shared' : List String)
        → Overlap task_id exclusive shared task_id' exclusive' shared'
        → Refused task_id' exclusive' shared' d'
            (acquire_script R owner' (get_task_lock_key task_id') exclusive' shared' d')
    Held-Refused owner' task_id' exclusive' shared' o =
        acquire_script-Refused owner' task_id' exclusive' shared' d'
          (Overlap-Blocked task_id' exclusive' shared' o)

  -- Once a request that nothing blocks, and that shares no resource which it reserves for itself, has
  -- taken its locks on a server that keeps sets at the registry and at the set of owners, every
  -- request that overlaps it, of any owner, is refused on the server as it stands then: it changes
  -- nothing there and its answer names what blocks it, which is the task lock if that is there, else
  -- all the exclusive resources that are taken and no others, and if none of them is, all the shared
  -- resources that are held exclusively and no others.
  pub acquire_script-excludes :
      (owner task_id : String) (exclusive shared : List String) (d : R.Db)
      → IsFree R task_id exclusive shared d
      → Serves R owner d
      → (owner' task_id' : String) (exclusive' shared' : List String)
      → Overlap task_id exclusive shared task_id' exclusive' shared'
      → let d' = (acquire_script R owner (get_task_lock_key task_id) exclusive shared d).1 in
        Refused task_id' exclusive' shared' d'
          (acquire_script R owner' (get_task_lock_key task_id') exclusive' shared' d')
  acquire_script-excludes owner task_id exclusive shared d f s owner' task_id' exclusive' shared'
        o =
      let (d', e, a) = acquire_script-Acquired R owner task_id exclusive shared d f s in
      subst
        (λ x.
          Refused task_id' exclusive' shared' x
            (acquire_script R owner' (get_task_lock_key task_id') exclusive' shared' x))
        (sym (ap (λ out. out.1) e))
        (Held-Refused owner task_id exclusive shared d'
          (Acquired-Held owner task_id exclusive shared d d' a) owner' task_id' exclusive' shared'
          o)
