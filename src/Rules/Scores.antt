-- ===== src/Rules/Scores.antt =====
-- `score_gsm8k` and `score_olymmath`, with `_assignment` and `_math_normalize`.
pub mod Commands
use uenv_design.Base.{ℕ, Bool, true, false, not, ◌||◌, ◌&&◌, Option, none, some, List, [], ◌∷◌}
use uenv_design.Base.{◌++◌, ◌==◌, any, all, contains, leb, length, nat_eq, if◌then◌else◌}
use uenv_design.Result.{Result}
use uenv_design.Value.{bool}
use uenv_design.Scoring.{ScoreResult, binary_score}
use uenv_design.Rules.{
  Text, strip, last_part, split_first, is_upper, is_alphanumeric, lower, lower_all,
}
use uenv_design.Rules.Braces.{extract_boxed}
use uenv_design.Rules.Labels.{codes, text_eq}
use uenv_design.Rules.Numeric.{Floats, numeric_equivalent}

-- `[A-Za-z]`
abbrev pub is_letter : ℕ → Bool
is_letter c = is_upper c || (leb 97 c && leb c 122)

-- `[A-Za-z0-9_]`
abbrev is_name : ℕ → Bool
is_name c = is_alphanumeric c || c == 95

abbrev is_empty : Text → Bool
is_empty text = text == []

-- `re.fullmatch(r"[A-Za-z0-9_]{1,3}", text)`
unfoldable pub is_variable : Text → Bool
is_variable text = leb 1 (length text) && leb (length text) 3 && all is_name text

-- `_assignment`
unfoldable pub assignment : Text → Text
assignment text = elim (split_first (61 ∷ []) text) [
  | none ↦ text
  | some (left, right) ↦
      if is_variable (strip left) && not (is_empty (strip right)) then strip right else text
]

-- What a command becomes.
unfoldable pub symbol : Text → Text
symbol command =
    if contains (codes "frac" ∷ codes "cdot" ∷ codes "times" ∷ []) command then 42 ∷ [] else []

-- `re.sub(r"\\([A-Za-z]*)", ...)`, with the command that is being read, if one is.
unfoldable pub replace_commands : Option Text → Text → Text
replace_commands none [] = []
replace_commands (some command) [] = symbol command
replace_commands none (c ∷ cs) =
    if c == 92 then replace_commands (some []) cs else c ∷ replace_commands none cs
replace_commands (some command) (c ∷ cs) =
    let longer = replace_commands (some (command ++ (c ∷ []))) cs in
    let another = replace_commands (some []) cs in
    let plain = replace_commands none cs in
    if is_letter c
    then longer
    else if c == 92
    then symbol command ++ another
    else symbol command ++ (c ∷ plain)

-- The characters of a test, in their order.
unfoldable pub only : (ℕ → Bool) → Text → Text
only p [] = []
only p (c ∷ cs) = let rest = only p cs in if p c then c ∷ rest else rest

-- `c.isascii() and (c.isalnum() or c in ".+-*/[](),^")`
abbrev pub is_mathematical : ℕ → Bool
is_mathematical c = is_alphanumeric c || contains (codes ".+-*/[](),^") c

-- `_math_normalize`
unfoldable pub math_normalize : Text → Text
math_normalize text = lower_all (only is_mathematical (replace_commands none text))

-- A command that ends: `[A-Za-z]+` wants a letter.
unfoldable pub noted : Text → List Text → List Text
noted command found = if is_empty command then found else command ∷ found

-- `re.findall(r"\\([A-Za-z]+)", text)`, with the command that is being read, if one is.
unfoldable pub commands_of : Option Text → Text → List Text
commands_of none [] = []
commands_of (some command) [] = noted command []
commands_of none (c ∷ cs) =
    let rest = commands_of none cs in if c == 92 then commands_of (some []) cs else rest
commands_of (some command) (c ∷ cs) =
    let longer = commands_of (some (command ++ (c ∷ []))) cs in
    let another = commands_of (some []) cs in
    let plain = commands_of none cs in
    if is_letter c then longer else noted command (if c == 92 then another else plain)

abbrev pub supported : List Text
supported =
    codes "frac"
    ∷ codes "dfrac"
    ∷ codes "tfrac"
    ∷ codes "cdot"
    ∷ codes "times"
    ∷ codes "left"
    ∷ codes "right"
    ∷ []

-- `any(command not in supported for command in re.findall(...))`
unfoldable pub has_unsupported : Text → Bool
has_unsupported text = any (λ command. not (contains supported command)) (commands_of none text)

-- `bool(left and right and left == right)`
unfoldable pub same_normal : Text → Text → Bool
same_normal left right = not (is_empty left) && not (is_empty right) && left == right

abbrev hash_marker : Text
hash_marker = codes "####"

-- `[A-Za-z0-9.\-/]`
abbrev is_kept : ℕ → Bool
is_kept c = is_alphanumeric c || contains (codes ".-/") c

-- The `normalize` of `score_gsm8k`.
unfoldable pub normalize_answer : Text → Text
normalize_answer text = lower_all (only is_kept text)

-- The last box, or what stands behind the last marker.
unfoldable pub predicted_of : Text → Text
predicted_of answer = elim (extract_boxed answer) [
  | some boxed ↦ strip boxed
  | none ↦ strip (last_part hash_marker answer)
]

module _ {F : Type 0} (floats : Floats F) where
  -- Whether the answer is right, for `score_gsm8k`.
  unfoldable pub accepts_gsm8k : Text → Text → Text → Bool
  accepts_gsm8k answer predicted target =
      if is_empty target || is_empty predicted
      then false
      else if strip answer == target || predicted == target
      then true
      else elim (numeric_equivalent floats predicted target) [
        | some same ↦ same
        | none ↦ same_normal (normalize_answer predicted) (normalize_answer target)
      ]

  -- `score_gsm8k`, on `private_data["answer"]`.
  unfoldable pub score_gsm8k : Text → Text → Result ScoreResult
  score_gsm8k answer target =
      binary_score
        (bool (accepts_gsm8k answer (strip (last_part hash_marker answer)) (strip target)))

  -- The rules behind the exact comparison of `score_olymmath`.
  unfoldable pub accepts_formula : Text → Text → Bool
  accepts_formula predicted target = elim (numeric_equivalent floats predicted target) [
    | some same ↦ same
    | none ↦
        if has_unsupported (predicted ++ (32 ∷ target))
        then false
        else same_normal (assignment (math_normalize predicted)) (math_normalize target)
  ]

  -- Whether the answer is right, for `score_olymmath`.
  unfoldable pub accepts_olymmath : Text → Text → Bool
  accepts_olymmath predicted target =
      if is_empty target || is_empty predicted
      then false
      else if predicted == target
      then true
      else accepts_formula (assignment predicted) target

  -- `score_olymmath`, on `private_data["answer"]`.
  unfoldable pub score_olymmath : Text → Text → Result ScoreResult
  score_olymmath answer target =
      binary_score (bool (accepts_olymmath (predicted_of answer) (strip target)))
