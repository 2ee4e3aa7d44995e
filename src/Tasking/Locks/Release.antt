-- ===== src/Tasking/Locks/Release.antt =====
-- Releasing the locks that are texts: the task lock and the exclusive ones.
use pulpcore.Prelude.{
  String, ◌≡◌, refl, ap, ◌∙◌, Bool, true, false, not, ◌&&◌, ◌||◌, Option, none, some, List, [], ◌∷◌,
  map, contains, ◌==◌, eq_string, if◌then◌else◌, Bool-cases, inl, inr, All, arith, ==-refl,
  eq_of_==,
}
use pulpcore.Tasking.Redis.{Kind, Redis, accepts_set, accepts_get}
use pulpcore.Tasking.Locks.{
  done, is_own, is_other, release_text, release_exclusive, resource_to_lock_key,
  get_owner_registry_key,
}
use pulpcore.Tasking.Locks.Keys.{registry-lock, lock-registry}

module _ (R : Redis) (owner : String) where
  abbrev registry : String
  registry = get_owner_registry_key owner

  -- The texts of the owner at the keys are gone with their entries of the registry, and nothing else
  -- has changed.
  pub record Freed (keys : List String) (d d' : R.Db) : Type 0 where
    pub text_now :
        (k : String)
        → R.text d' k ≡ (if contains keys k && is_own owner (R.text d k) then none else R.text d k)
    pub has_now : (k m : String) → (k == registry) ≡ false → R.has d' k m ≡ R.has d k m
    pub registered :
        (m : String)
        → R.has d' registry m
          ≡ (R.has d registry m && not (contains keys m && is_own owner (R.text d m)))
    pub sets : (k : String) → accepts_set (R.kind d k) ≡ true → accepts_set (R.kind d' k) ≡ true
    pub gets :
        (k : String)
        → (k == registry) ≡ false
        → accepts_get (R.kind d k) ≡ true
        → accepts_get (R.kind d' k) ≡ true

  Freed-refl : (d : R.Db) → Freed [] d d
  Freed-refl d = record {
    text_now = λ k. refl;
    has_now = λ k m _. refl;
    registered = λ m. ground arith;
    sets = λ k h. h;
    gets = λ k _ h. h;
  }

  own_kind :
      (key : String) (d : R.Db) → is_own owner (R.text d key) ≡ true → R.kind d key ≡ Kind.text_key
  own_kind key d h = go (R.text d key) refl
    where
      go : (o : Option String) → R.text d key ≡ o → R.kind d key ≡ Kind.text_key
      go none e = cc (h, ap (is_own owner) e)
      go (some v) e = R.text-kind d key v e

  -- A text has no members.
  own_empty :
      (key m : String) (d : R.Db) → is_own owner (R.text d key) ≡ true → R.has d key m ≡ false
  own_empty key m d h = elim (Bool-cases (R.has d key m)) [
    | inr absent ↦ absent
    | inl there ↦ let a = own_kind key d h in let b = R.has-kind d key m there in absurd (cc (a, b))
  ]

  text_at :
      (key k : String) (d : R.Db)
      → (k == key) ≡ true
      → is_own owner (R.text d k) ≡ is_own owner (R.text d key)
  text_at key k d h = ap (λ y. is_own owner (R.text d y)) (eq_of_== k key h)

  kept : (key : String) (d : R.Db) → is_own owner (R.text d key) ≡ false → Freed (key ∷ []) d d
  kept key d other = record {
    text_now = λ k. elim (Bool-cases (k == key)) [
      | inl here ↦ rw (here, text_at key k d here, other) refl
      | inr there ↦ rw there refl
    ];
    has_now = λ k m _. refl;
    registered = λ m. elim (Bool-cases (m == key)) [
      | inl here ↦ rw (here, text_at key m d here, other) (ground arith)
      | inr there ↦ rw there (ground arith)
    ];
    sets = λ k h. h;
    gets = λ k _ h. h;
  }

  freed :
      (key : String) (d : R.Db)
      → (registry == key) ≡ false
      → accepts_set (R.kind (R.delete key d) registry) ≡ true
      → is_own owner (R.text d key) ≡ true
      → Freed (key ∷ []) d (R.set_remove registry key (R.delete key d))
  freed key d apart s own =
      let d1 = R.delete key d in
      let now : (k : String)
          → (k == registry) ≡ false
          → R.kind (R.set_remove registry key d1) k
            ≡ (if k == key then Kind.no_key else R.kind d k) =
        λ k other. R.kind-remove d1 registry key k s other ∙ R.kind-delete d key k in
      record {
        text_now = λ k.
            R.text-remove d1 registry key k s
            ∙ R.text-delete d key k
            ∙ (elim (Bool-cases (k == key)) [
              | inl here ↦ rw (here, text_at key k d here, own) refl
              | inr there ↦ rw there refl
            ]);
        has_now = λ k m other.
            R.has-remove d1 registry key k m s
            ∙ rw (R.has-delete d key k m, other)
                (elim (Bool-cases (k == key)) [
                  | inl here ↦
                      let e = eq_of_== k key here in
                      let empty : R.has d k m ≡ false =
                        ap (λ y. R.has d y m) e ∙ own_empty key m d own in
                      rw (here, empty) refl
                  | inr there ↦ rw there (ground arith)
                ]);
        registered = λ m.
            R.has-remove d1 registry key registry m s
            ∙ rw (R.has-delete d key registry m, apart, ==-refl registry)
                (elim (Bool-cases (m == key)) [
                  | inl here ↦ rw (here, text_at key m d here, own) refl
                  | inr there ↦ rw there refl
                ]);
        sets = λ k h. elim (Bool-cases (k == registry)) [
          | inl here ↦
              ap (λ y. accepts_set (R.kind (R.set_remove registry key d1) y))
                (eq_of_== k registry here)
              ∙ R.kind-remove_same d1 registry key s
          | inr other ↦
              ap accepts_set (now k other)
              ∙ (elim (Bool-cases (k == key)) [ inl here ↦ rw here refl | inr there ↦ rw there h ])
        ];
        gets = λ k other h.
            ap accepts_get (now k other)
            ∙ (elim (Bool-cases (k == key)) [ inl here ↦ rw here refl | inr there ↦ rw there h ]);
      }

  -- One text, if it is the owner's.
  pub release_text-Freed :
      (key : String) (d : R.Db)
      → (registry == key) ≡ false
      → accepts_get (R.kind d key) ≡ true
      → accepts_set (R.kind d registry) ≡ true
      → (d' : R.Db) × (release_text R owner key d ≡ (done (R.text d key), d'))
        × Freed (key ∷ []) d d'
  release_text-Freed key d apart h s = elim (Bool-cases (is_own owner (R.text d key))) [
    | inl own ↦
        let s1 : accepts_set (R.kind (R.delete key d) registry) ≡ true =
          ap accepts_set (R.kind-delete d key registry ∙ rw apart refl) ∙ s in
        (R.set_remove registry key (R.delete key d), rw (h, own, s1) refl, freed key d apart s1 own)
    | inr other ↦ (d, rw (h, other) refl, kept key d other)
  ]

  Freed-trans :
      (key : String) (rest : List String) (d d1 d2 : R.Db)
      → Freed (key ∷ []) d d1
      → Freed rest d1 d2
      → Freed (key ∷ rest) d d2
  Freed-trans key rest d d1 d2 f g = record {
    text_now =
        λ k. g.text_now k ∙ rw (f.text_now k) (gone (k == key) (contains rest k) (R.text d k));
    has_now = λ k m other. g.has_now k m other ∙ f.has_now k m other;
    registered = λ m.
        g.registered m
        ∙ rw (f.registered m, f.text_now m)
            (left (R.has d registry m) (m == key) (contains rest m) (R.text d m));
    sets = λ k h. g.sets k (f.sets k h);
    gets = λ k other h. g.gets k other (f.gets k other h);
  }
    where
      gone :
          (a b : Bool) (o : Option String)
          → (if b && is_own owner (if (a || false) && is_own owner o then none else o)
              then none
              else (if (a || false) && is_own owner o then none else o))
            ≡ (if (a || b) && is_own owner o then none else o)
      gone a b none = ground arith
      gone a b (some v) = ground arith

      left :
          (h a b : Bool) (o : Option String)
          → ((h && not ((a || false) && is_own owner o))
              && not (b && is_own owner (if (a || false) && is_own owner o then none else o)))
            ≡ (h && not ((a || b) && is_own owner o))
      left h a b none = ground arith
      left h a b (some v) = ground arith

  pub release_exclusive-Freed :
      (exclusive : List String) (d : R.Db)
      → All (λ r. accepts_get (R.kind d (resource_to_lock_key r)) ≡ true) exclusive
      → accepts_set (R.kind d registry) ≡ true
      → (d' : R.Db) × (not_owned : List String) × (release_exclusive R owner exclusive d
          ≡ (done not_owned, d'))
        × Freed (map resource_to_lock_key exclusive) d d'
  release_exclusive-Freed [] d h s = (d, [], refl, Freed-refl d)
  release_exclusive-Freed (r ∷ exclusive) d h s =
      let key = resource_to_lock_key r in
      let (d1, e1, f1) = release_text-Freed key d (registry-lock owner r) h.0 s in
      let (d2, rest, e2, f2) =
        release_exclusive-Freed exclusive d1 (still exclusive d1 f1 h.1) (f1.sets registry s) in
      (
        d2,
        (if is_other owner (R.text d key) then r ∷ rest else rest),
        rw (e1, e2) refl,
        Freed-trans key (map resource_to_lock_key exclusive) d d1 d2 f1 f2,
      )
    where
      still :
          (rest : List String) (d1 : R.Db)
          → Freed (resource_to_lock_key r ∷ []) d d1
          → All (λ r. accepts_get (R.kind d (resource_to_lock_key r)) ≡ true) rest
          → All (λ r. accepts_get (R.kind d1 (resource_to_lock_key r)) ≡ true) rest
      still [] d1 f t = tt
      still (x ∷ rest) d1 f t =
          (f.gets (resource_to_lock_key x) (lock-registry x owner) t.0, still rest d1 f t.1)
