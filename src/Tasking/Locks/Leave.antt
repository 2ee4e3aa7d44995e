-- ===== src/Tasking/Locks/Leave.antt =====
-- Releasing the locks that are sets: the shared ones.
use pulpcore.Prelude.{
  String, ◌≡◌, refl, ap, ◌∙◌, true, false, not, ◌&&◌, List, [], ◌∷◌, map, contains, ◌==◌, eq_string,
  if◌then◌else◌, Bool-cases, inl, inr, All, arith, ==-refl, eq_of_==,
}
use pulpcore.Tasking.Redis.{Redis, accepts_set, accepts_get}
use pulpcore.Tasking.Locks.{done, release_shared, resource_to_lock_key, get_owner_registry_key}
use pulpcore.Tasking.Locks.Keys.{registry-lock, ==-comm}

module _ (R : Redis) (owner : String) where
  abbrev registry : String
  registry = get_owner_registry_key owner

  -- The owner has left the sets at the keys, its registry has none of the keys, and nothing else has
  -- changed.
  pub record Left (keys : List String) (d d' : R.Db) : Type 0 where
    pub text_same : (k : String) → R.text d' k ≡ R.text d k
    pub has_now :
        (k m : String)
        → (k == registry) ≡ false
        → R.has d' k m ≡ (R.has d k m && not (contains keys k && m == owner))
    pub registered :
        (m : String) → R.has d' registry m ≡ (R.has d registry m && not (contains keys m))
    pub sets : (k : String) → accepts_set (R.kind d k) ≡ true → accepts_set (R.kind d' k) ≡ true
    pub gets :
        (k : String)
        → (k == registry) ≡ false
        → contains keys k ≡ false
        → accepts_get (R.kind d k) ≡ true
        → accepts_get (R.kind d' k) ≡ true

  leave_one :
      (key : String) (d : R.Db)
      → (registry == key) ≡ false
      → accepts_set (R.kind d key) ≡ true
      → accepts_set (R.kind (R.set_remove key owner d) registry) ≡ true
      → Left (key ∷ []) d (R.set_remove registry key (R.set_remove key owner d))
  leave_one key d apart h s =
      let d1 = R.set_remove key owner d in
      let apart' = ==-comm key registry ∙ apart in
      record {
        text_same = λ k. R.text-remove d1 registry key k s ∙ R.text-remove d key owner k h;
        has_now = λ k m other.
            R.has-remove d1 registry key k m s
            ∙ rw (other, R.has-remove d key owner k m h) (ground arith);
        registered = λ m.
            R.has-remove d1 registry key registry m s
            ∙ rw (==-refl registry, R.has-remove d key owner registry m h, apart) (ground arith);
        sets = λ k t. elim (Bool-cases (k == registry)) [
          | inl here ↦
              ap (λ y. accepts_set (R.kind (R.set_remove registry key d1) y))
                (eq_of_== k registry here)
              ∙ R.kind-remove_same d1 registry key s
          | inr other ↦
              ap accepts_set (R.kind-remove d1 registry key k s other)
              ∙ (elim (Bool-cases (k == key)) [
                | inl here ↦
                    ap (λ y. accepts_set (R.kind d1 y)) (eq_of_== k key here)
                    ∙ R.kind-remove_same d key owner h
                | inr there ↦ ap accepts_set (R.kind-remove d key owner k h there) ∙ t
              ])
        ];
        gets = λ k other apart_k t.
            let there : (k == key) ≡ false = ground arith in
            ap accepts_get
              (R.kind-remove d1 registry key k s other ∙ R.kind-remove d key owner k h there)
            ∙ t;
      }

  Left-trans :
      (key : String) (rest : List String) (d d1 d2 : R.Db)
      → Left (key ∷ []) d d1
      → Left rest d1 d2
      → Left (key ∷ rest) d d2
  Left-trans key rest d d1 d2 f g = record {
    text_same = λ k. g.text_same k ∙ f.text_same k;
    has_now = λ k m other. g.has_now k m other ∙ rw (f.has_now k m other) (ground arith);
    registered = λ m. g.registered m ∙ rw (f.registered m) (ground arith);
    sets = λ k h. g.sets k (f.sets k h);
    gets = λ k other apart h. g.gets k other (ground arith) (f.gets k other (ground arith) h);
  }

  pub release_shared-Left :
      (shared : List String) (d : R.Db)
      → All (λ r. accepts_set (R.kind d (resource_to_lock_key r)) ≡ true) shared
      → accepts_set (R.kind d registry) ≡ true
      → (d' : R.Db) × (not_in : List String) × (release_shared R owner shared d ≡ (done not_in, d'))
        × Left (map resource_to_lock_key shared) d d'
  release_shared-Left [] d h s = (
    d,
    [],
    refl,
    record {
      text_same = λ k. refl;
      has_now = λ k m _. ground arith;
      registered = λ m. ground arith;
      sets = λ k t. t;
      gets = λ k _ _ t. t;
    },
  )
  release_shared-Left (r ∷ shared) d h s =
      let key = resource_to_lock_key r in
      let s1 : accepts_set (R.kind (R.set_remove key owner d) registry) ≡ true =
        ap accepts_set (R.kind-remove d key owner registry h.0 (registry-lock owner r)) ∙ s in
      let d1 = R.set_remove registry key (R.set_remove key owner d) in
      let f1 = leave_one key d (registry-lock owner r) h.0 s1 in
      let (d2, rest, e2, f2) =
        release_shared-Left shared d1 (still shared d1 f1 h.1) (f1.sets registry s) in
      (
        d2,
        (if R.has d key owner then rest else r ∷ rest),
        rw (h.0, s1, e2) refl,
        Left-trans key (map resource_to_lock_key shared) d d1 d2 f1 f2,
      )
    where
      still :
          (rest : List String) (d1 : R.Db)
          → Left (resource_to_lock_key r ∷ []) d d1
          → All (λ r. accepts_set (R.kind d (resource_to_lock_key r)) ≡ true) rest
          → All (λ r. accepts_set (R.kind d1 (resource_to_lock_key r)) ≡ true) rest
      still [] d1 f t = tt
      still (x ∷ rest) d1 f t = (f.sets (resource_to_lock_key x) t.0, still rest d1 f t.1)
