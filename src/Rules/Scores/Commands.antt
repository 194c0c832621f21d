-- ===== src/Rules/Scores/Commands.antt =====
-- What the scores of GSM8K and OlymMATH accept and refuse.
use uenv_design.Base.{ℕ, ◌≡◌, ◌≢◌, refl, sym, ap, subst, ◌∙◌, inl, inr, true, false, none, [], ◌∷◌}
use uenv_design.Base.{◌++◌, Bool-cases, List-cases, ==_ne, ==_refl, ◌==◌}
use uenv_design.Value.{bool}
use uenv_design.Scoring.{binary_score}
use uenv_design.Rules.{Text, is_space, lstrip, rstrip, strip, last_part}
use uenv_design.Rules.Labels.{codes, text_eq}
use uenv_design.Rules.Numeric.{Floats, numeric_equivalent}
use uenv_design.Rules.Scores.{
  assignment, has_unsupported, accepts_formula, accepts_olymmath, predicted_of, score_olymmath,
  accepts_gsm8k, score_gsm8k, supported, noted, commands_of,
}
use uenv_design.Rules.Scores.{is_letter}
use uenv_design.Base.{arith, nat_eq, All, List, contains, any, not, some, Option}
use mathlib.Core.List.{append-nil, append_assoc}

-- A text that begins with no space.
Trimmed : Text → Type 0
Trimmed [] = Unit
Trimmed (c ∷ cs) = is_space c ≡ false

lstrip-Trimmed : (t : Text) → Trimmed (lstrip t)
unfolding lstrip Trimmed
lstrip-Trimmed [] = tt
lstrip-Trimmed (c ∷ cs) = elim (Bool-cases (is_space c)) [
  | inl e ↦ rw e (lstrip-Trimmed cs)
  | inr e ↦ rw (Trimmed, e) e
]

lstrip_same : (t : Text) → Trimmed t → lstrip t ≡ t
unfolding lstrip Trimmed
lstrip_same [] h = refl
lstrip_same (c ∷ cs) h = rw h refl

rstrip-Trimmed : (t : Text) → Trimmed t → Trimmed (rstrip t)
unfolding rstrip Trimmed
rstrip-Trimmed [] h = tt
rstrip-Trimmed (c ∷ cs) h = elim (List-cases (rstrip cs)) [
  | inl e ↦ rw (Trimmed, e, h) h
  | inr (d, ds, e) ↦ rw (Trimmed, e) h
]

rstrip_cons :
    (c : ℕ) (cs : Text) (d : ℕ) (ds : Text) → rstrip cs ≡ d ∷ ds → rstrip (c ∷ cs) ≡ c ∷ d ∷ ds
unfolding rstrip
rstrip_cons c cs d ds e = rw e refl

rstrip_idem : (t : Text) → rstrip (rstrip t) ≡ rstrip t
unfolding rstrip
rstrip_idem [] = refl
rstrip_idem (c ∷ cs) = elim (List-cases (rstrip cs)) [
  | inr (d, ds, e) ↦
      ap rstrip (rstrip_cons c cs d ds e)
      ∙ rstrip_cons c (d ∷ ds) d ds (subst (λ t. rstrip t ≡ t) e (rstrip_idem cs))
      ∙ sym (rstrip_cons c cs d ds e)
  | inl e ↦ elim (Bool-cases (is_space c)) [
    | inl f ↦ rw (e, f) refl
    | inr f ↦ rw (e, f) (rw f refl)
  ]
]

pub strip_idem : (t : Text) → strip (strip t) ≡ strip t
strip_idem t =
    rw (lstrip_same (rstrip (lstrip t)) (rstrip-Trimmed (lstrip t) (lstrip-Trimmed t)))
      (rstrip_idem (lstrip t))

abbrev AllLetters : Text → Type 0
AllLetters = All (λ c. is_letter c ≡ true)

-- What is behind the letters of a command begins with none.
abbrev Behind : Text → Type 0
Behind [] = Unit
Behind (c ∷ cs) = is_letter c ≡ false

-- A LaTeX command stands in the text that the rule does not know: a backslash, at least one letter, and no
-- letter behind.
pub record HasUnknown (text : Text) : Type 0 where
  pub before : Text
  pub initial : ℕ
  pub letters : Text
  pub behind : Text
  pub split : text ≡ before ++ 92 ∷ ((initial ∷ letters) ++ behind)
  pub name : AllLetters (initial ∷ letters)
  pub ended : Behind behind
  pub unknown : contains supported (initial ∷ letters) ≡ false

noted_keeps :
    (name command : Text) (found : List Text)
    → contains found name ≡ true
    → contains (noted command found) name ≡ true
unfolding noted
noted_keeps name command found h = ground arith

noted_found :
    (c : ℕ) (cs : Text) (found : List Text) → contains (noted (c ∷ cs) found) (c ∷ cs) ≡ true
unfolding noted text_eq
noted_found c cs found = rw (==_refl (c ∷ cs)) refl

-- A command that is being read is found with the rest of its letters.
commands_of-letters :
    (c : ℕ) (read letters behind : Text)
    → AllLetters letters
    → Behind behind
    → contains (commands_of (some (c ∷ read)) (letters ++ behind)) (c ∷ (read ++ letters)) ≡ true
unfolding commands_of
commands_of-letters c read [] [] h k = rw append-nil (noted_found c read [])
commands_of-letters c read [] (b ∷ behind) h k = rw (append-nil, k) (noted_found c read _)
commands_of-letters c read (l ∷ letters) behind (h, hs) k = rw h (
    subst
      (λ t. contains (commands_of (some (c ∷ (read ++ l ∷ []))) (letters ++ behind)) (c ∷ t) ≡ true)
      (append_assoc read (l ∷ []) letters)
      (commands_of-letters c (read ++ l ∷ []) letters behind hs k))

-- Whatever is being read, a command further on is found.
commands_of-later :
    (state : Option Text) (before rest name : Text)
    → contains (commands_of (some []) rest) name ≡ true
    → contains (commands_of state (before ++ 92 ∷ rest)) name ≡ true
unfolding commands_of
commands_of-later none [] rest name h = rw (==_refl {A = ℕ} 92) h
commands_of-later (some command) [] rest name h =
    rw (==_refl {A = ℕ} 92) (noted_keeps name command _ h)
commands_of-later none (c ∷ before) rest name h = elim (Bool-cases (c == 92)) [
  | inl e ↦ rw e (commands_of-later (some []) before rest name h)
  | inr e ↦ rw e (commands_of-later none before rest name h)
]
commands_of-later (some command) (c ∷ before) rest name h = elim (Bool-cases (is_letter c)) [
  | inl e ↦ rw e (commands_of-later (some (command ++ c ∷ [])) before rest name h)
  | inr e ↦ elim (Bool-cases (c == 92)) [
    | inl f ↦
        rw (e, f) (noted_keeps name command _ (commands_of-later (some []) before rest name h))
    | inr f ↦ rw (e, f) (noted_keeps name command _ (commands_of-later none before rest name h))
  ]
]

any-unknown :
    (found : List Text) (name : Text)
    → contains found name ≡ true
    → contains supported name ≡ false
    → any (λ command. not (contains supported command)) found ≡ true
any-unknown [] name h k = absurd (ground arith)
any-unknown (command ∷ found) name h k = elim (Bool-cases (name == command)) [
  | inl e ↦ let same : command ≡ name = ground arith in rw (same, k) refl
  | inr e ↦ ground (arith, any-unknown found name (rw e at h) k)
]

has_unsupported-HasUnknown : (text : Text) → HasUnknown text → has_unsupported text ≡ true
unfolding has_unsupported commands_of
has_unsupported-HasUnknown text h =
    any-unknown (commands_of none text) (h.initial ∷ h.letters)
      (rw h.split (
        commands_of-later none h.before ((h.initial ∷ h.letters) ++ h.behind)
          (h.initial ∷ h.letters)
          (rw h.name.0 (commands_of-letters h.initial [] h.letters h.behind h.name.1 h.ended))))
      h.unknown

Behind-append : (behind other : Text) → Behind behind → Behind (behind ++ 32 ∷ other)
Behind-append [] other h = ground arith
Behind-append (c ∷ cs) other h = h

-- Another text behind a space leaves the command there.
HasUnknown-append : (text other : Text) → HasUnknown text → HasUnknown (text ++ 32 ∷ other)
HasUnknown-append text other h = record {
  before = h.before;
  initial = h.initial;
  letters = h.letters;
  behind = h.behind ++ 32 ∷ other;
  split = ap (λ t. t ++ 32 ∷ other) h.split ∙ rw (append_assoc, append_assoc) refl;
  name = h.name;
  ended = Behind-append h.behind other h.ended;
  unknown = h.unknown;
}

module _ {F : Type 0} (floats : Floats F) where
  -- A prediction in which a LaTeX command stands that the rule does not know, anywhere in it or, if it is an
  -- assignment to a variable, in its right side, is not right by the fallback that erases commands:
  -- where no numbers can be compared and the prediction is not the target to the letter, the score of
  -- OlymMATH is a failure.
  pub score_olymmath-has_unsupported :
      (answer target : Text)
      → HasUnknown (assignment (predicted_of answer))
      → numeric_equivalent floats (assignment (predicted_of answer)) (strip target) ≡ none
      → predicted_of answer ≢ strip target
      → score_olymmath floats answer target ≡ binary_score (bool false)
  unfolding score_olymmath accepts_olymmath accepts_formula
  score_olymmath-has_unsupported answer target unknown apart differ =
      elim (Bool-cases (strip target == [])) [
        | inl e ↦ rw e refl
        | inr e ↦ elim (Bool-cases (predicted_of answer == [])) [
          | inl f ↦ rw (e, f) refl
          | inr f ↦
              rw
                (
                  e,
                  f,
                  ==_ne differ,
                  accepts_formula,
                  apart,
                  has_unsupported-HasUnknown _
                      (HasUnknown-append (assignment (predicted_of answer)) (strip target) unknown),
                )
                refl
        ]
      ]

  -- The answer whose last part is the reference, spaces apart, is right in GSM8K, unless the reference
  -- is blank.
  pub score_gsm8k_same :
      (answer target : Text)
      → strip (last_part (codes "####") answer) ≡ strip target
      → strip target ≢ []
      → score_gsm8k floats answer target ≡ binary_score (bool true)
  unfolding score_gsm8k accepts_gsm8k
  score_gsm8k_same answer target same given = elim (Bool-cases (strip answer == strip target)) [
    | inl e ↦ rw (same, ==_ne given, e) refl
    | inr e ↦ rw (same, ==_ne given, e, ==_refl (strip target)) refl
  ]
