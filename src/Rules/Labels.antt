-- ===== src/Rules/Labels.antt =====
-- `_label` and `score_label`, with the vocabularies of PubMedQA and SciTab.
pub mod Cases
use uenv_design.Base.{
  ℕ, zero, suc, String, Bool, true, false, not, ◌&&◌, ◌||◌, Option, none, some, List, [], ◌∷◌,
}
use uenv_design.Base.{◌==◌, ◌++◌, leb, length, Eq, string_eq, option_eq, if◌then◌else◌}
use uenv_design.Base.Dict
use uenv_design.Base.Dict.{Dict}
use uenv_design.Result.{Result}
use uenv_design.Value.{bool}
use uenv_design.Scoring.{ScoreResult, binary_score}
use uenv_design.Rules.{Text, after, is_alphanumeric, lower_all, strip}
use Prim.Native.Char.{code}
use native.Mathlib.Decide.{ℕ_discrete}

unfoldable pub Text-discrete : Discrete Text
Text-discrete = hlevel ℕ_discrete

instance unfoldable pub text_eq : Eq Text
unfolding Text-discrete
text_eq = record { dec = Text-discrete }

-- The code points of a string.
abbrev pub codes : String → Text
codes String.[] = []
codes (String.◌∷◌ c s) = code c ∷ codes s

-- The labels of a data set: what a whole answer may be, and what may stand in one. Each phrase and
-- each word comes with its label.
pub record Vocabulary : Type 0 where
  pub aliases : Dict Text String
  pub phrases : List (String × Text)
  pub words : List (String × Text)

abbrev pub next : Option ℕ → Option ℕ
next none = none
next (some i) = some (suc i)

abbrev pub or_here : Option ℕ → Bool → Option ℕ
or_here (some i) here = some i
or_here none true = some 0
or_here none false = none

abbrev pub is_some {ℓ} : {A : Type ℓ} → Option A → Bool
is_some none = false
is_some (some a) = true

-- `lower.rfind(phrase)`, with `none` for -1.
unfoldable pub rfind : Text → Text → Option ℕ
rfind phrase [] = or_here none (is_some (after phrase []))
rfind phrase (c ∷ cs) = or_here (next (rfind phrase cs)) (is_some (after phrase (c ∷ cs)))

-- `[A-Za-z0-9]` before or behind a place.
abbrev pub in_word : Option ℕ → Bool
in_word none = false
in_word (some c) = is_alphanumeric c

abbrev pub first : Text → Option ℕ
first [] = none
first (c ∷ cs) = some c

abbrev pub ends_word : Option Text → Bool
ends_word none = false
ends_word (some rest) = not (in_word (first rest))

-- The expression with its two lookarounds matches here.
unfoldable pub word_at : Text → Option ℕ → Text → Bool
word_at word previous text = not (in_word previous) && ends_word (after word text)

abbrev pub less : ℕ → ℕ
less zero = zero
less (suc n) = n

-- `matches[-1].start()`: matches do not overlap, so what a match takes is skipped.
unfoldable pub last_match : Text → ℕ → Option ℕ → Text → Option ℕ
last_match word skip previous [] = none
last_match word (suc skip) previous (c ∷ cs) = next (last_match word skip (some c) cs)
last_match word zero previous (c ∷ cs) =
    let here = word_at word previous (c ∷ cs) in
    or_here (next (last_match word (if here then less (length word) else 0) (some c) cs)) here

-- The best position so far, with its label: -1 is `none`.
abbrev pub Best : Type 0
Best = Option (ℕ × String)

abbrev pub improve : Option ℕ → String → Best → Best
improve none label best = best
improve (some i) label none = some (i, label)
improve (some i) label (some (j, old)) = if leb j i then some (i, label) else some (j, old)

unfoldable pub best_phrase : Text → List (String × Text) → Best → Best
best_phrase text [] best = best
best_phrase text ((label, phrase) ∷ phrases) best =
    best_phrase text phrases (improve (rfind phrase text) label best)

unfoldable pub best_word : Text → List (String × Text) → Best → Best
best_word text [] best = best
best_word text ((label, word) ∷ words) best =
    best_word text words (improve (last_match word 0 none text) label best)

abbrev pub label_of_best : Best → Option String
label_of_best none = none
label_of_best (some (i, label)) = some label

-- `_label` once the text is stripped and in lower case.
unfoldable pub label_lowered : Vocabulary → Text → Option String
label_lowered v text = elim (Dict.lookup text v.aliases) [
  | some label ↦ some label
  | none ↦ label_of_best (best_word text v.words (best_phrase text v.phrases none))
]

-- `_label`
unfoldable pub label : Vocabulary → Text → Option String
label v text = label_lowered v (lower_all (strip text))

-- `score_label`, on `private_data["answer"]`.
unfoldable pub score_label : Vocabulary → Text → Text → Result ScoreResult
score_label v answer target =
    let expected = label v target in
    binary_score (bool (is_some expected && label v answer == expected))

abbrev pub pubmedqa : Vocabulary
pubmedqa = record {
  aliases =
      (codes "yes", "yes")
      ∷ (codes "y", "yes")
      ∷ (codes "no", "no")
      ∷ (codes "n", "no")
      ∷ (codes "maybe", "maybe")
      ∷ (codes "uncertain", "maybe")
      ∷ [];
  phrases = [];
  words = ("yes", codes "yes") ∷ ("no", codes "no") ∷ ("maybe", codes "maybe") ∷ [];
}

abbrev all_to : String → List String → Dict Text String
all_to label [] = []
all_to label (s ∷ ss) = (codes s, label) ∷ all_to label ss

abbrev each_of : String → List String → List (String × Text)
each_of label [] = []
each_of label (s ∷ ss) = (label, codes s) ∷ each_of label ss

abbrev pub scitab : Vocabulary
scitab = record {
  aliases =
      all_to "supports" ("supports" ∷ "support" ∷ "supported" ∷ "true" ∷ [])
      ++ all_to "refutes" ("refutes" ∷ "refute" ∷ "refuted" ∷ "false" ∷ [])
      ++ all_to "not enough info" (
          "not enough info" ∷ "not enough information" ∷ "nei" ∷ "insufficient"
          ∷ "insufficient information" ∷ "unverifiable" ∷ []);
  phrases = each_of "not enough info" (
      "not enough info" ∷ "not enough information" ∷ "insufficient information"
      ∷ "insufficient evidence" ∷ []);
  words =
      each_of "supports" ("supports" ∷ "support" ∷ "supported" ∷ [])
      ++ each_of "refutes" ("refutes" ∷ "refute" ∷ "refuted" ∷ [])
      ++ each_of "not enough info" ("nei" ∷ []);
}

-- `score_pubmedqa` and `score_scitab`
abbrev pub score_pubmedqa : Text → Text → Result ScoreResult
score_pubmedqa = score_label pubmedqa

abbrev pub score_scitab : Text → Text → Result ScoreResult
score_scitab = score_label scitab
