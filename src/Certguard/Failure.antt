-- ===== src/Certguard/Failure.antt =====
-- The exceptions of pulp_certguard/rhsm/rhsm_check_path.py, as values.
pub data Failure : Type 0 where
  index_error assertion_error stop_iteration unicode_error value_error zlib_error : Failure

pub data Result {ℓ} (A : Type ℓ) : Type ℓ where
  ok : A → Result A
  raised : Failure → Result A

infixl 5 ◌>>=◌
abbrev pub ◌>>=◌ {ℓ κ} : {A : Type ℓ} {B : Type κ} → Result A → (A → Result B) → Result B
ok a >>= f = f a
raised e >>= f = raised e
