-- ===== src/Tasking/Locks/Loops.antt =====
-- What the loops of the acquire script leave in the server.
use pulpcore.Prelude.{
  String, ◌≡◌, refl, ap, ◌∙◌, Bool, true, false, ◌&&◌, ◌||◌, some, List, [], ◌∷◌, contains, ◌==◌,
  eq_string, if◌then◌else◌, Bool-cases, inl, inr, All, arith, ==-refl,
}
use pulpcore.Tasking.Redis.{Kind, Redis, accepts_set}
use pulpcore.Tasking.Locks.{done, set_each, sadd_each, add_members}

-- Two updates of one observation, one after the other.
if-if {ℓ} :
    {A : Type ℓ} (a b : Bool) (x y : A)
    → (if b then x else (if a then x else y)) ≡ (if a || b then x else y)
if-if true true x y = refl
if-if true false x y = refl
if-if false true x y = refl
if-if false false x y = refl

module _ (R : Redis) where
  module _ (owner k : String) where
    pub kind-set_each :
        (keys : List String) (d : R.Db)
        → R.kind (set_each R owner keys d) k
          ≡ (if contains keys k then Kind.text_key else R.kind d k)
    kind-set_each [] d = refl
    kind-set_each (key ∷ keys) d =
        kind-set_each keys (R.set_text key owner d)
        ∙ ap (λ o. if contains keys k then Kind.text_key else o) (R.kind-set d key owner k)
        ∙ if-if (k == key) (contains keys k) Kind.text_key (R.kind d k)

    pub text-set_each :
        (keys : List String) (d : R.Db)
        → R.text (set_each R owner keys d) k ≡ (if contains keys k then some owner else R.text d k)
    text-set_each [] d = refl
    text-set_each (key ∷ keys) d =
        text-set_each keys (R.set_text key owner d)
        ∙ ap (λ o. if contains keys k then some owner else o) (R.text-set d key owner k)
        ∙ if-if (k == key) (contains keys k) (some owner) (R.text d k)

    pub has-set_each :
        (m : String) (keys : List String) (d : R.Db)
        → R.has (set_each R owner keys d) k m ≡ (if contains keys k then false else R.has d k m)
    has-set_each m [] d = refl
    has-set_each m (key ∷ keys) d =
        has-set_each m keys (R.set_text key owner d)
        ∙ ap (λ o. if contains keys k then false else o) (R.has-set d key owner k m)
        ∙ if-if (k == key) (contains keys k) false (R.has d k m)

  -- The keys of a list hold the owner in a set, and nothing else changes.
  pub record Added (owner : String) (keys : List String) (d d' : R.Db) : Type 0 where
    pub kind_same :
        (k : String) → R.kind d' k ≡ (if contains keys k then Kind.set_key else R.kind d k)
    pub text_same : (k : String) → R.text d' k ≡ R.text d k
    pub has_now : (k m : String) → R.has d' k m ≡ ((contains keys k && m == owner) || R.has d k m)

  pub sadd_each-Added :
      (owner : String) (keys : List String) (d : R.Db)
      → All (λ key. accepts_set (R.kind d key) ≡ true) keys
      → (d' : R.Db) × (sadd_each R owner keys d ≡ (done tt, d')) × Added owner keys d d'
  sadd_each-Added owner [] d h =
      (d, refl, record { kind_same = λ k. refl; text_same = λ k. refl; has_now = λ k m. refl })
  sadd_each-Added owner (key ∷ keys) d h =
      let d1 = R.set_add key owner d in
      let (d', e, a) = sadd_each-Added owner keys d1 (still keys h.1) in
      (
        d',
        rw h.0 e,
        record {
          kind_same = λ k.
              a.kind_same k
              ∙ ap (λ o. if contains keys k then Kind.set_key else o) (R.kind-add d key owner k h.0)
              ∙ if-if (k == key) (contains keys k) Kind.set_key (R.kind d k);
          text_same = λ k. a.text_same k ∙ R.text-add d key owner k h.0;
          has_now = λ k m. a.has_now k m ∙ rw (R.has-add d key owner k m h.0) (ground arith);
        },
      )
    where
      still :
          (rest : List String)
          → All (λ x. accepts_set (R.kind d x) ≡ true) rest
          → All (λ x. accepts_set (R.kind (R.set_add key owner d) x) ≡ true) rest
      still [] t = tt
      still (x ∷ rest) t = (
        elim (Bool-cases (x == key)) [
          | inl here ↦ rw (R.kind-add d key owner x h.0, here) refl
          | inr other ↦ rw (R.kind-add d key owner x h.0, other) t.0
        ],
        still rest t.1,
      )

  -- The members are in the set at the key, and nothing else changes.
  pub record Joined (key : String) (members : List String) (d d' : R.Db) : Type 0 where
    pub accepts : accepts_set (R.kind d' key) ≡ true
    pub kind_same : (k : String) → (k == key) ≡ false → R.kind d' k ≡ R.kind d k
    pub text_same : (k : String) → R.text d' k ≡ R.text d k
    pub has_now : (k m : String) → R.has d' k m ≡ ((k == key && contains members m) || R.has d k m)

  pub add_members-Joined :
      (key : String) (members : List String) (d : R.Db)
      → accepts_set (R.kind d key) ≡ true
      → Joined key members d (add_members R key members d)
  add_members-Joined key [] d h = record {
    accepts = h;
    kind_same = λ k _. refl;
    text_same = λ k. refl;
    has_now = λ k m. ground arith;
  }
  add_members-Joined key (x ∷ members) d h =
      let now : accepts_set (R.kind (R.set_add key x d) key) ≡ true =
        rw (R.kind-add d key x key h, ==-refl key) refl in
      let rest = add_members-Joined key members (R.set_add key x d) now in
      record {
        accepts = rest.accepts;
        kind_same = λ k other. rest.kind_same k other ∙ R.kind-add d key x k h ∙ rw other refl;
        text_same = λ k. rest.text_same k ∙ R.text-add d key x k h;
        has_now = λ k m. rest.has_now k m ∙ rw (R.has-add d key x k m h) (ground arith);
      }
