-- ===== src/Tests/RuleRuns.antt =====
-- Answers that the rules score.
use uenv_design.Base.{◌≡◌, refl, some, ◌∷◌, ◌++◌, nat_eq, option_eq, string_eq}
use uenv_design.Rules.{Text, is_space, lstrip, rstrip, lower, lower_all, after}
use uenv_design.Rules.Braces.{
  take_braced, take_from, deeper, unescaped, close, opens, scan, extract_boxed,
}
use uenv_design.Rules.Braces.Boxes.{Boxed, Balanced, take_braced-Balanced, extract_boxed-Boxed}
use uenv_design.Rules.Labels.{
  codes, pubmedqa, label, label_lowered, best_word, best_phrase, last_match, word_at,
}
use uenv_design.Rules.Labels.{text_eq, score_label, scitab}
use uenv_design.Rules.Labels.Cases.{score_label-lower_all}

abbrev answer : Text
answer = codes "So \\boxed{1} or \\boxed{x^{2}}."

boxed : extract_boxed answer ≡ some (codes "x^{2}")
unfolding extract_boxed scan opens close unescaped deeper after nat_eq option_eq
boxed = refl

extract_boxed-Boxed_example : Boxed answer (codes "x^{2}")
extract_boxed-Boxed_example = extract_boxed-Boxed answer (codes "x^{2}") boxed

taken : take_braced (codes "a{b}c}/d") ≡ some (codes "a{b}c", codes "/d")
unfolding take_braced take_from deeper nat_eq
taken = refl

take_braced-Balanced_example :
    (codes "a{b}c}/d" ≡ codes "a{b}c" ++ 125 ∷ codes "/d") × Balanced (codes "a{b}c")
take_braced-Balanced_example =
    take_braced-Balanced (codes "a{b}c}/d") (codes "a{b}c") (codes "/d") taken

last_label : label pubmedqa (codes " No doubt: the answer is YES ") ≡ some "yes"
unfolding label label_lowered best_word best_phrase last_match word_at lower lstrip rstrip is_space
    after nat_eq text_eq
last_label = refl

score_label-lower_all_example :
    score_label scitab (lower_all (codes "Supported.")) (lower_all (codes "TRUE"))
    ≡ score_label scitab (codes "Supported.") (codes "TRUE")
score_label-lower_all_example = score_label-lower_all scitab (codes "Supported.") (codes "TRUE")
