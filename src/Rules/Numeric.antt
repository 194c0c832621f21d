-- ===== src/Rules/Numeric.antt =====
-- `_numeric` and `numeric_equivalent`: the number that a text writes. Python's floats are a parameter.
pub mod Fractions
use uenv_design.Base.{
  ℕ, zero, suc, Bool, true, false, ◌||◌, ◌&&◌, Option, none, some, List, [], ◌∷◌,
}
use uenv_design.Base.{◌++◌, ◌==◌, contains, leb, length, nat_eq, if◌then◌else◌}
use uenv_design.Rules.{Text, strip, after, split_first}
use uenv_design.Rules.Braces.{take_braced}
use uenv_design.Rules.Labels.{codes}

-- Python's `float` and what the rule does with it: `of_text` is `float(text)`, with `none` for
-- `ValueError`, and `divide` has `none` for `ZeroDivisionError` and `OverflowError`. `close a b` is
-- `abs(a-b) <= 1e-9 * max(abs(a), abs(b), 1.0)`.
pub record Floats (F : Type 0) : Type 0 where
  pub of_text : Text → Option F
  pub divide : F → F → Option F
  pub is_finite : F → Bool
  pub close : F → F → Bool

-- What becomes of a text in the loop over a command. `refused` is a return of `None` or the
-- `ValueError` of the braces, and `running` a loop that has not ended.
pub data Expansion : Type 0 where
  running refused : Expansion
  expanded : Text → Expansion

abbrev pub fraction : Text → Text → Option (Text × Text) → Expansion
fraction start numerator none = refused
fraction start numerator (some (denominator, tail)) =
    expanded (start ++ (strip numerator ++ (47 ∷ (strip denominator ++ tail))))

abbrev pub over : Text → Text → Option Text → Expansion
over start numerator none = refused
over start numerator (some rest) = fraction start numerator (take_braced rest)

abbrev pub numerator_of : Text → Option (Text × Text) → Expansion
numerator_of start none = refused
numerator_of start (some (numerator, rest)) = over start numerator (after (123 ∷ []) rest)

-- The body of the loop, where the command stands first between `start` and `rest`.
unfoldable pub expand_one : Text → Text → Expansion
expand_one start rest = numerator_of start (take_braced rest)

-- `while command in text`, for as many rounds as the fuel has.
unfoldable pub expand : ℕ → Text → Text → Expansion
expand zero command text = running
expand (suc fuel) command text = elim (split_first command text) [
  | none ↦ expanded text
  | some (start, rest) ↦ elim (expand_one start rest) [
    | expanded next ↦ expand fuel command next
    | refused ↦ refused
    | running ↦ running
  ]
]

-- Every round makes the text shorter, so its length is enough.
abbrev pub expand_all : Text → Text → Expansion
expand_all command text = expand (suc (length text)) command text

-- The loop over the commands.
unfoldable pub expand_each : List Text → Text → Expansion
expand_each [] text = expanded text
expand_each (command ∷ commands) text = elim (expand_all command text) [
  | expanded next ↦ expand_each commands next
  | refused ↦ refused
  | running ↦ running
]

abbrev pub fraction_commands : List Text
fraction_commands = codes "\\dfrac{" ∷ codes "\\tfrac{" ∷ codes "\\frac{" ∷ []

abbrev keep : ℕ → Option Text → Option Text
keep c none = none
keep c (some cs) = some (c ∷ cs)

-- The loop over the characters. The flag is `not cleaned`.
unfoldable pub clean : Bool → Text → Option Text
clean empty [] = some []
clean empty (c ∷ cs) =
    let kept = keep c (clean false cs) in
    let skipped = clean empty cs in
    if contains (codes "0123456789./-") c
    then kept
    else if (c == 43 && empty) || contains (codes ",$ \t\n\r") c
    then skipped
    else none

module _ {F : Type 0} (floats : Floats F) where
  abbrev finite : Option F → Option F
  finite none = none
  finite (some x) = if floats.is_finite x then some x else none

  abbrev quotient : Option F → Option F → Option F
  quotient (some a) (some b) = floats.divide a b
  quotient _ _ = none

  -- The number that the characters write.
  unfoldable pub value_of : Text → Option F
  value_of cleaned = elim (split_first (47 ∷ []) cleaned) [
    | none ↦ finite (floats.of_text cleaned)
    | some (a, b) ↦ finite (quotient (floats.of_text a) (floats.of_text b))
  ]

  abbrev of_cleaned : Option Text → Option F
  of_cleaned none = none
  of_cleaned (some cleaned) = value_of cleaned

  abbrev of_expanded : Expansion → Option F
  of_expanded (expanded text) = of_cleaned (clean true text)
  of_expanded _ = none

  -- `_numeric`
  unfoldable pub numeric : Text → Option F
  numeric text = of_expanded (expand_each fraction_commands (strip text))

  abbrev closeness : Option F → Option F → Option Bool
  closeness (some a) (some b) = some (floats.close a b)
  closeness _ _ = none

  -- `numeric_equivalent`
  unfoldable pub numeric_equivalent : Text → Text → Option Bool
  numeric_equivalent left right = closeness (numeric left) (numeric right)
