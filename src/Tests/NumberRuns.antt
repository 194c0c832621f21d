-- ===== src/Tests/NumberRuns.antt =====
-- Numbers and formulas that the rules compare. The floats of the runs are natural numbers.
use uenv_design.Base.{ℕ, ◌+◌, ◌-◌, ◌*◌, ◌/◌, true, false, Option, none, some, [], ◌∷◌}
use uenv_design.Base.{◌≡◌, refl, leb, ◌==◌, if◌then◌else◌, nat_eq, option_eq, ◌&&◌}
use uenv_design.Value.{bool}
use uenv_design.Scoring.{binary_score}
use uenv_design.Rules.{Text, is_space, lstrip, rstrip, after, split_first}
use uenv_design.Rules.Braces.{
  take_braced, take_from, deeper, unescaped, close, opens, scan, extract_boxed,
}
use uenv_design.Rules.Labels.{codes, text_eq}
use uenv_design.Rules.Numeric.{
  Floats, expand_one, expand, expand_all, expand_each, clean, value_of, numeric, numeric_equivalent,
}
use uenv_design.Rules.Numeric.Fractions.{IsOver, expand_all-IsOver}
use uenv_design.Rules.Scores.{
  is_variable, assignment, commands_of, noted, has_unsupported, predicted_of, score_olymmath,
}
use uenv_design.Rules.Scores.Commands.{score_olymmath-has_unsupported}

abbrev parse : ℕ → Text → Option ℕ
parse n [] = some n
parse n (c ∷ cs) =
    let rest = parse (10 * n + (c - 48)) cs in if leb 48 c && leb c 57 then rest else none

abbrev nonblank : Text → Option ℕ
nonblank [] = none
nonblank (c ∷ cs) = parse 0 (c ∷ cs)

abbrev pub floats : Floats ℕ
floats = record {
  of_text = nonblank;
  divide = λ a b. if b == 0 then none else some (a / b);
  is_finite = λ a. true;
  close = λ a b. a == b;
}

halved : numeric floats (codes " \\frac{12}{ 4 } ") ≡ some 3
unfolding numeric expand_each expand expand_one value_of clean take_braced take_from deeper
    split_first after lstrip rstrip is_space nat_eq
halved = refl

grouped : numeric_equivalent floats (codes "$1,200") (codes "+1200") ≡ some true
unfolding numeric_equivalent numeric expand_each expand expand_one value_of clean take_braced
    take_from deeper split_first after lstrip rstrip is_space nat_eq
grouped = refl

expand_all-IsOver_example :
    IsOver
      (codes "\\frac{")
      (codes "\\frac{\\frac{1}{2}}{3}")
      (expand_all (codes "\\frac{") (codes "\\frac{\\frac{1}{2}}{3}"))
expand_all-IsOver_example = expand_all-IsOver (codes "\\frac{") (codes "\\frac{\\frac{1}{2}}{3}")

-- The square root of 33 is not 33: the rule does not know `sqrt`.
score_olymmath-has_unsupported_example :
    score_olymmath floats (codes "\\boxed{\\sqrt{33}}") (codes "33") ≡ binary_score (bool false)
unfolding has_unsupported commands_of noted predicted_of extract_boxed scan opens close unescaped
    deeper after assignment is_variable split_first lstrip rstrip is_space nat_eq option_eq text_eq
    numeric_equivalent numeric expand_each expand expand_one value_of clean take_braced take_from
score_olymmath-has_unsupported_example =
    score_olymmath-has_unsupported floats (codes "\\boxed{\\sqrt{33}}") (codes "33")
      (record {
        before = [];
        initial = 115;
        letters = codes "qrt";
        behind = codes "{33}";
        split = refl;
        name = (refl, (refl, (refl, (refl, tt))));
        ended = refl;
        unknown = refl;
      })
      refl (λ same. cc)
