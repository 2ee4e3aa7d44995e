-- ===== src/Tasking/Redis/Memory.antt =====
-- A server in memory, which shows that the documented behaviour can hold: each key holds a text or
-- the list of the members of a set, the empty list where the key is missing.
use pulpcore.Prelude.{
  String, ◌≡◌, refl, true, not, ◌&&◌, ◌||◌, Option, none, some, List, [], ◌∷◌, ◌==◌, eq_string,
  contains, filter, if◌then◌else◌, Bool-cases, arith, eq_of_==, inl, inr, sym, ◌∙◌, ==-refl, ap,
}
use pulpcore.Tasking.Redis.{Kind, Redis, accepts_set}

pub data Entry : Type 0 where
  text_entry : String → Entry
  set_entry : List String → Entry

abbrev pub kind_of : Entry → Kind
kind_of (text_entry v) = Kind.text_key
kind_of (set_entry []) = Kind.no_key
kind_of (set_entry (x ∷ xs)) = Kind.set_key

abbrev pub text_of : Entry → Option String
text_of (text_entry v) = some v
text_of (set_entry xs) = none

abbrev pub members_of : Entry → List String
members_of (text_entry v) = []
members_of (set_entry xs) = xs

abbrev pub put : String → Entry → (String → Entry) → String → Entry
put k e d k' = if k' == k then e else d k'

contains-without :
    (xs : List String) (m m' : String)
    → contains (filter (λ x. not (x == m)) xs) m' ≡ (contains xs m' && not (m' == m))
contains-without [] m m' = refl
contains-without (x ∷ xs) m m' =
    let below = contains-without xs m m' in
    elim (Bool-cases (m' == x)) [
      | inl here ↦
          let e : m' ≡ x = eq_of_== m' x here in
          let s : (m' == m) ≡ (x == m) = ap (λ y. y == m) e in rw (here, s) (ground (arith, below))
      | inr other ↦ ground (arith, below)
    ]

pub text_entry-only : (e : Entry) (v : String) → text_of e ≡ some v → kind_of e ≡ Kind.text_key
text_entry-only (text_entry w) v h = refl
text_entry-only (set_entry xs) v h = cc

pub text_entry-text : (e : Entry) → kind_of e ≡ Kind.text_key → (v : String) × (text_of e ≡ some v)
text_entry-text (text_entry w) h = (w, refl)
text_entry-text (set_entry []) h = cc
text_entry-text (set_entry (x ∷ xs)) h = cc

pub set_entry-member :
    (e : Entry) (m : String) → contains (members_of e) m ≡ true → kind_of e ≡ Kind.set_key
set_entry-member (text_entry w) m h = cc
set_entry-member (set_entry []) m h = cc
set_entry-member (set_entry (x ∷ xs)) m h = refl

text_of-accepts : (e : Entry) → accepts_set (kind_of e) ≡ true → text_of e ≡ none
text_of-accepts (text_entry w) h = cc
text_of-accepts (set_entry xs) h = refl

pub accepts_set_entry : (xs : List String) → accepts_set (kind_of (set_entry xs)) ≡ true
accepts_set_entry [] = refl
accepts_set_entry (x ∷ xs) = refl

-- What an observer sees of a changed table.
pub put-if {ℓ} :
    {A : Type ℓ} (observe : Entry → A) (k : String) (e : Entry) (d : String → Entry) (k' : String)
    → observe (put k e d k') ≡ (if k' == k then observe e else observe (d k'))
put-if observe k e d k' = elim (Bool-cases (k' == k)) [
  | inl here ↦ rw here refl
  | inr other ↦ rw other refl
]

pub put-text :
    (k : String) (xs : List String) (d : String → Entry) (k' : String)
    → accepts_set (kind_of (d k)) ≡ true
    → text_of (put k (set_entry xs) d k') ≡ text_of (d k')
put-text k xs d k' h = elim (Bool-cases (k' == k)) [
  | inl here ↦
      rw here (sym (ap (λ y. text_of (d y)) (eq_of_== k' k here) ∙ text_of-accepts (d k) h))
  | inr other ↦ rw other refl
]

pub put-members_add :
    (k m k' m' : String) (d : String → Entry)
    → contains (members_of (put k (set_entry (m ∷ members_of (d k))) d k')) m'
      ≡ ((k' == k && m' == m) || contains (members_of (d k')) m')
put-members_add k m k' m' d = elim (Bool-cases (k' == k)) [
  | inl here ↦
      let e : contains (members_of (d k')) m' ≡ contains (members_of (d k)) m' =
        ap (λ y. contains (members_of (d y)) m') (eq_of_== k' k here) in
      rw (here, e) refl
  | inr other ↦ rw other refl
]

pub put-members_remove :
    (k m k' m' : String) (d : String → Entry)
    → contains
        (members_of (put k (set_entry (filter (λ x. not (x == m)) (members_of (d k)))) d k'))
        m'
      ≡ (contains (members_of (d k')) m' && not (k' == k && m' == m))
put-members_remove k m k' m' d = elim (Bool-cases (k' == k)) [
  | inl here ↦
      let e : contains (members_of (d k')) m' ≡ contains (members_of (d k)) m' =
        ap (λ y. contains (members_of (d y)) m') (eq_of_== k' k here) in
      rw (here, e) (contains-without (members_of (d k)) m m')
  | inr other ↦ rw other (ground arith)
]

abbrev pub memory : Redis
memory = record {
  Db = String → Entry;
  kind = λ d k. kind_of (d k);
  text = λ d k. text_of (d k);
  has = λ d k m. contains (members_of (d k)) m;
  smembers = λ d k. members_of (d k);
  set_text = λ k v. put k (text_entry v);
  delete = λ k. put k (set_entry []);
  set_add = λ k m d. put k (set_entry (m ∷ members_of (d k))) d;
  set_remove = λ k m d. put k (set_entry (filter (λ x. not (x == m)) (members_of (d k)))) d;
  text-kind = λ d k v. text_entry-only (d k) v;
  kind-text = λ d k. text_entry-text (d k);
  has-kind = λ d k m. set_entry-member (d k) m;
  smembers-has = λ d k m. refl;
  kind-set = λ d k v. put-if kind_of k (text_entry v) d;
  text-set = λ d k v. put-if text_of k (text_entry v) d;
  has-set = λ d k v k' m. put-if (λ e. contains (members_of e) m) k (text_entry v) d k';
  kind-delete = λ d k. put-if kind_of k (set_entry []) d;
  text-delete = λ d k. put-if text_of k (set_entry []) d;
  has-delete = λ d k k' m. put-if (λ e. contains (members_of e) m) k (set_entry []) d k';
  kind-add = λ d k m k' _. put-if kind_of k (set_entry (m ∷ members_of (d k))) d k';
  text-add = λ d k m k'. put-text k (m ∷ members_of (d k)) d k';
  has-add = λ d k m k' m' _. put-members_add k m k' m' d;
  kind-remove = λ d k m k' _ other. rw other refl;
  kind-remove_same =
      λ d k m _. rw (==-refl k) (accepts_set_entry (filter (λ x. not (x == m)) (members_of (d k))));
  text-remove = λ d k m k'. put-text k (filter (λ x. not (x == m)) (members_of (d k))) d k';
  has-remove = λ d k m k' m' _. put-members_remove k m k' m' d;
}
