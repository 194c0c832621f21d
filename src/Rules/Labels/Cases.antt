-- ===== src/Rules/Labels/Cases.antt =====
-- Labels do not depend on the case of letters.
use uenv_design.Base.{ℕ, ◌≡◌, refl, [], ◌∷◌, Bool-cases, List-cases, inl, inr, arith}
use uenv_design.Base.{nat_eq}
use uenv_design.Rules.{Text, is_space, lstrip, rstrip, lower, lower_all}
use uenv_design.Rules.Labels.{Vocabulary, label, score_label}

is_space-lower : (c : ℕ) → is_space (lower c) ≡ is_space c
unfolding is_space lower
is_space-lower c = ground arith

lower-lower : (c : ℕ) → lower (lower c) ≡ lower c
unfolding lower
lower-lower c = ground arith

lower_all_idem : (t : Text) → lower_all (lower_all t) ≡ lower_all t
lower_all_idem [] = refl
lower_all_idem (c ∷ t) = rw (lower-lower c, lower_all_idem t) refl

lstrip-lower_all : (t : Text) → lstrip (lower_all t) ≡ lower_all (lstrip t)
unfolding lstrip
lstrip-lower_all [] = refl
lstrip-lower_all (c ∷ t) = elim (Bool-cases (is_space c)) [
  | inl e ↦ rw (is_space-lower c, e) (lstrip-lower_all t)
  | inr e ↦ rw (is_space-lower c, e) refl
]

rstrip-lower_all : (t : Text) → rstrip (lower_all t) ≡ lower_all (rstrip t)
unfolding rstrip
rstrip-lower_all [] = refl
rstrip-lower_all (c ∷ t) = elim (List-cases (rstrip t)) [
  | inl e ↦ elim (Bool-cases (is_space c)) [
    | inl f ↦ rw (rstrip-lower_all t, e, is_space-lower c, f) refl
    | inr f ↦ rw (rstrip-lower_all t, e, is_space-lower c, f) refl
  ]
  | inr (d, ds, e) ↦ rw (rstrip-lower_all t, e) refl
]

label-lower_all : (v : Vocabulary) (t : Text) → label v (lower_all t) ≡ label v t
unfolding label
label-lower_all v t =
    rw (lstrip-lower_all t, rstrip-lower_all (lstrip t), lower_all_idem (rstrip (lstrip t))) refl

-- A score does not depend on the case of the letters, neither of the answer nor of the target.
pub score_label-lower_all :
    (v : Vocabulary) (answer target : Text)
    → score_label v (lower_all answer) (lower_all target) ≡ score_label v answer target
unfolding score_label
score_label-lower_all v answer target = rw (label-lower_all v answer, label-lower_all v target) refl
