-- ===== src/Value.antt =====
-- The JSON values that cross the wire between the hosts and the Worker.
use uenv_design.Base.{ℕ, String, Bool}
use uenv_design.Base.{Eq, string_dec}
use native.Mathlib.Decide.{ℕ_discrete}

-- `negsuc n` is -(n + 1).
pub data ℤ : Type 0 where
  pos : ℕ → ℤ
  negsuc : ℕ → ℤ

-- A float is kept by the text of its `repr`.
mutual
  pub data Value : Type 0 where
    null : Value
    bool : Bool → Value
    int : ℤ → Value
    real : String → Value
    str : String → Value
    arr : Items → Value
    obj : Fields → Value

  pub data Fields : Type 0 where
    field : String → Value → Fields → Fields
    end : Fields

  pub data Items : Type 0 where
    cons : Value → Items → Items
    nil : Items

unfoldable pub Value-discrete : Discrete Value
Value-discrete = hlevel (ℕ_discrete, string_dec)

instance unfoldable pub value_eq : Eq Value
unfolding Value-discrete
value_eq = record { dec = Value-discrete }
