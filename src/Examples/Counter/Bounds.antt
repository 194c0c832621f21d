-- ===== src/Examples/Counter/Bounds.antt =====
-- The counter stays between 0 and its goal (reference/examples/tools.py).
use uenv_design.Base.{ℕ, ◌≡◌, refl, ◌≤◌, inl, inr, arith, Option, none, some}
use uenv_design.Base.{List, [], ◌∷◌, Bool-cases, true, false, All, zero, suc}
use uenv_design.Result.{Result, ok, err}
use uenv_design.Value.{ℤ, pos, negsuc}
use uenv_design.Wire.{ArtifactRef}
use uenv_design.Modeling.{Datum, Classes}
use uenv_design.Examples.Counter.{
  Counter, geb, plus, refuses, is_one, advance, increment, reset, goal_of, with_image,
}

-- The goal is a natural number, and the value is one up to it. Before the first reset there is no goal.
abbrev pub Within : Option ℤ → ℤ → Type 0
Within none value = Unit
Within (some (pos goal)) (pos value) = value ≤ goal
Within (some goal) value = ⊥

abbrev pub InBounds : Counter → Type 0
InBounds c = Within c.goal c.value

-- Only the amount 1 gets past the test.
is_one_lem : (amount : ℤ) → is_one amount ≡ true → amount ≡ pos 1
is_one_lem (pos zero) h = absurd (ground arith)
is_one_lem (pos (suc zero)) h = refl
is_one_lem (pos (suc (suc n))) h = absurd (ground arith)
is_one_lem (negsuc n) h = absurd (ground arith)

plus-Within :
    (goal value : ℤ)
    → Within (some goal) value
    → geb value goal ≡ false
    → Within (some goal) (plus value (pos 1))
plus-Within (pos goal) (pos value) h below = ground (arith, h, below)
plus-Within (pos goal) (negsuc value) h below = absurd h
plus-Within (negsuc goal) value h below = absurd h

accepted :
    (amount value goal : ℤ)
    → refuses amount value goal ≡ false
    → (is_one amount ≡ true) × (geb value goal ≡ false)
unfolding refuses
accepted amount value goal h = ground arith

advance-InBounds :
    (classes : Classes) (amount : ℤ) (goal : Option ℤ) (c : Counter)
    → Within goal c.value
    → Within goal (advance classes amount c goal).1.value
unfolding advance
advance-InBounds classes amount none c h = tt
advance-InBounds classes amount (some goal) c h = elim (Bool-cases (refuses amount c.value goal)) [
  | inl e ↦ rw e h
  | inr e ↦
      let (one, below) = accepted amount c.value goal e in
      rw (e, is_one_lem amount one) (plus-Within goal c.value h below)
]

advance-goal :
    (classes : Classes) (amount : ℤ) (goal : Option ℤ) (c : Counter)
    → (advance classes amount c goal).1.goal ≡ c.goal
unfolding advance
advance-goal classes amount none c = refl
advance-goal classes amount (some goal) c = ground arith

increment-InBounds :
    (classes : Classes) (amount : ℤ) (c : Counter)
    → InBounds c
    → InBounds (increment classes amount c).1
unfolding increment
increment-InBounds classes amount c h =
    rw (advance-goal classes amount c.goal c) (advance-InBounds classes amount c.goal c h)

-- What happens to the environment.
pub data Act : Type 0 where
  increase : ℤ → Act
  restart : Datum → Act

-- The goal of a task is a natural number, as its schema wants.
abbrev pub HasGoal : Act → Type 0
HasGoal (increase amount) = Unit
HasGoal (restart input) = (goal : ℕ) × (goal_of input ≡ ok (pos goal))

module _ {W : Type 0} (put : W → Result ArtifactRef × W) (classes : Classes) where
  unfoldable pub acts : List Act → Counter × W → Counter × W
  acts [] s = s
  acts (increase amount ∷ rest) s = acts rest ((increment classes amount s.0).1, s.1)
  acts (restart input ∷ rest) s = let (r, c, w) = reset put classes input s in acts rest (c, w)

  with_image-InBounds :
      (c : Counter) (stored : Result ArtifactRef)
      → InBounds c
      → InBounds (with_image put classes c stored).1
  with_image-InBounds c (ok image) h = h
  with_image-InBounds c (err e) h = h

  reset-InBounds :
      (input : Datum) (goal : ℕ) (s : Counter × W)
      → goal_of input ≡ ok (pos goal)
      → InBounds (reset put classes input s).1
  unfolding reset
  reset-InBounds input goal (c, w) e =
      rw (e, reset)
        (with_image-InBounds (record c { goal = some (pos goal); value = pos 0 }) (put w).0
          (omega arith))

  -- Until it is closed, the counter stays between 0 and its goal: this holds after any sequence of resets to
  -- natural goals and of increments by whatever amounts, if it held before.
  pub acts-InBounds :
      (todo : List Act) (c : Counter) (w : W)
      → All HasGoal todo
      → InBounds c
      → InBounds (acts todo (c, w)).0
  unfolding acts
  acts-InBounds [] c w goals h = h
  acts-InBounds (increase amount ∷ todo) c w (_, goals) h =
      acts-InBounds todo (increment classes amount c).1 w goals
        (increment-InBounds classes amount c h)
  acts-InBounds (restart input ∷ todo) c w ((goal, e), goals) h =
      acts-InBounds todo (reset put classes input (c, w)).1 (reset put classes input (c, w)).2 goals
        (reset-InBounds input goal (c, w) e)
