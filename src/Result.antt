-- ===== src/Result.antt =====
-- The exceptions of the Python sources, and functions that may raise one.
pub mod Holds
use uenv_design.Base.{not, Option, none, some, String, ◌≡◌, ◌⊎◌, inl, inr, refl, Bool, true, false}

-- The class of the exception, and its message or, for `RpcError` and `AgentRuntimeError`, its code.
-- `no_answer` is no exception: it stands for a call that never returns.
pub data Error : Type 0 where
  value_error : String → Error
  attribute_error : String → Error
  zero_division_error : String → Error
  type_error : String → Error
  key_error : String → Error
  runtime_error : String → Error
  timeout_error : String → Error
  validation_error : String → Error
  rpc_error : String → Error
  agent_error : String → Error
  no_answer : Error

pub data Result {ℓ} (A : Type ℓ) : Type ℓ where
  err : Error → Result A
  ok : A → Result A

-- What follows a call: an exception goes past it.
module _ {ℓ κ} {A : Type ℓ} {B : Type κ} where
  infixl 5 ◌>>=◌
  abbrev pub ◌>>=◌ : Result A → (A → Result B) → Result B
  err e >>= f = err e
  ok a >>= f = f a

module _ {κ} {B : Type κ} where
  -- A statement, and what follows it.
  infixl 5 ◌>>◌
  abbrev pub ◌>>◌ : Result (Unit {0}) → Result B → Result B
  statement >> next = statement >>= λ _. next

-- `if b: raise e`
abbrev pub raise_if : Bool → Error → Result (Unit {0})
raise_if true e = err e
raise_if false e = ok tt

-- `value[key]`, where the key may be missing
abbrev pub required {ℓ} : {A : Type ℓ} → String → Option A → Result A
required key none = err (key_error key)
required key (some a) = ok a

abbrev pub is_ok {ℓ} : {A : Type ℓ} → Result A → Bool
is_ok (ok a) = true
is_ok (err e) = false

pub Result-cases {ℓ} :
    {A : Type ℓ} (r : Result A) → ((a : A) × (r ≡ ok a)) ⊎ ((e : Error) × (r ≡ err e))
Result-cases (ok a) = inl (a, refl)
Result-cases (err e) = inr (e, refl)

pub ok_inj {ℓ} : {A : Type ℓ} (a b : A) → ok a ≡ ok b → a ≡ b
ok_inj a b h = cc
