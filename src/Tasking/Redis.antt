-- ===== src/Tasking/Redis.antt =====
-- The Redis server as the lock code of pulpcore/tasking/redis_locks.py uses it: a parameter, with
-- what the server documents of each command. A key is missing, or holds a text, a set or a value of
-- another type; a set that loses its last member is missing.
pub mod Memory
use pulpcore.Prelude.{
  String, ◌≡◌, Bool, true, false, not, ◌&&◌, ◌||◌, Option, none, some, List, ◌==◌, eq_string,
  contains, if◌then◌else◌, ◌⊎◌, ◌≢◌,
}

pub data Kind : Type 0 where
  no_key text_key set_key other_key : Kind

-- `exists` and the test that a command of sets makes on its key.
abbrev pub exists_kind : Kind → Bool
exists_kind Kind.no_key = false
exists_kind _ = true

abbrev pub is_text : Kind → Bool
is_text Kind.text_key = true
is_text _ = false

abbrev pub accepts_set : Kind → Bool
accepts_set Kind.no_key = true
accepts_set Kind.set_key = true
accepts_set _ = false

abbrev pub accepts_get : Kind → Bool
accepts_get Kind.no_key = true
accepts_get Kind.text_key = true
accepts_get _ = false

-- `TYPE`, `GET`, `SISMEMBER` and `SMEMBERS`, and the effects of `SET`, `DEL`, `SADD` and `SREM` on
-- keys that they accept.
pub record Redis : Type 1 where
  pub Db : Type 0
  pub kind : Db → String → Kind
  pub text : Db → String → Option String
  pub has : Db → String → String → Bool
  pub smembers : Db → String → List String
  pub set_text : String → String → Db → Db
  pub delete : String → Db → Db
  pub set_add : String → String → Db → Db
  pub set_remove : String → String → Db → Db
  pub text-kind : (d : Db) (k v : String) → text d k ≡ some v → kind d k ≡ Kind.text_key
  pub kind-text :
      (d : Db) (k : String) → kind d k ≡ Kind.text_key → (v : String) × (text d k ≡ some v)
  pub has-kind : (d : Db) (k m : String) → has d k m ≡ true → kind d k ≡ Kind.set_key
  pub smembers-has : (d : Db) (k m : String) → contains (smembers d k) m ≡ has d k m
  pub kind-set :
      (d : Db) (k v k' : String)
      → kind (set_text k v d) k' ≡ (if k' == k then Kind.text_key else kind d k')
  pub text-set :
      (d : Db) (k v k' : String)
      → text (set_text k v d) k' ≡ (if k' == k then some v else text d k')
  pub has-set :
      (d : Db) (k v k' m : String)
      → has (set_text k v d) k' m ≡ (if k' == k then false else has d k' m)
  pub kind-delete :
      (d : Db) (k k' : String) → kind (delete k d) k' ≡ (if k' == k then Kind.no_key else kind d k')
  pub text-delete :
      (d : Db) (k k' : String) → text (delete k d) k' ≡ (if k' == k then none else text d k')
  pub has-delete :
      (d : Db) (k k' m : String) → has (delete k d) k' m ≡ (if k' == k then false else has d k' m)
  pub kind-add :
      (d : Db) (k m k' : String)
      → accepts_set (kind d k) ≡ true
      → kind (set_add k m d) k' ≡ (if k' == k then Kind.set_key else kind d k')
  pub text-add :
      (d : Db) (k m k' : String)
      → accepts_set (kind d k) ≡ true
      → text (set_add k m d) k' ≡ text d k'
  pub has-add :
      (d : Db) (k m k' m' : String)
      → accepts_set (kind d k) ≡ true
      → has (set_add k m d) k' m' ≡ ((k' == k && m' == m) || has d k' m')
  pub kind-remove :
      (d : Db) (k m k' : String)
      → accepts_set (kind d k) ≡ true
      → (k' == k) ≡ false
      → kind (set_remove k m d) k' ≡ kind d k'
  pub kind-remove_same :
      (d : Db) (k m : String)
      → accepts_set (kind d k) ≡ true
      → accepts_set (kind (set_remove k m d) k) ≡ true
  pub text-remove :
      (d : Db) (k m k' : String)
      → accepts_set (kind d k) ≡ true
      → text (set_remove k m d) k' ≡ text d k'
  pub has-remove :
      (d : Db) (k m k' m' : String)
      → accepts_set (kind d k) ≡ true
      → has (set_remove k m d) k' m' ≡ (has d k' m' && not (k' == k && m' == m))
