-- ===== src/Rules/Numeric/Fractions.antt =====
-- The loop that turns fractions into quotients ends.
use uenv_design.Base.{ℕ, zero, suc, ◌+◌, ◌≤◌, ◌<◌, ◌≡◌, refl, ◌⊎◌, inl, inr, arith, subst}
use uenv_design.Base.{Option, none, some, [], ◌∷◌, ◌++◌, length, length-append, ◌==◌, nat_eq}
use uenv_design.Base.{Bool-cases, List-cases, Option-cases}
use uenv_design.Rules.{Text, is_space, lstrip, rstrip, strip, after, split_first}
use uenv_design.Rules.Braces.{deeper, take_from, take_braced}
use uenv_design.Rules.Numeric.{
  Expansion, running, refused, expanded, expand_one, expand, expand_all,
}

ℕ-cases : (n : ℕ) → (n ≡ 0) ⊎ ((m : ℕ) × (n ≡ suc m))
ℕ-cases zero = inl refl
ℕ-cases (suc m) = inr (m, refl)

-- What a split leaves, with what it takes away.
unfoldable Parts : Text → ℕ → Option (Text × Text) → Type 0
Parts text taken none = Unit
Parts text taken (some (a, b)) = length a + taken + length b ≡ length text

take_from-Parts : (depth : ℕ) (text : Text) → Parts text 1 (take_from depth text)
unfolding take_from Parts
take_from-Parts depth [] = tt
take_from-Parts depth (c ∷ cs) = elim (ℕ-cases (deeper depth c)) [
  | inl e ↦ rw (Parts, e) (omega arith)
  | inr (m, e) ↦ elim (Option-cases (take_from (suc m) cs)) [
    | inl f ↦ rw (Parts, e, f) tt
    | inr (p, f) ↦
        rw (Parts, e, f) (omega (arith, subst (Parts cs 1) f (take_from-Parts (suc m) cs)))
  ]
]

-- What is left behind a prefix.
unfoldable Rest : Text → ℕ → Option Text → Type 0
Rest text taken none = Unit
Rest text taken (some rest) = taken + length rest ≡ length text

after-Rest : (p text : Text) → Rest text (length p) (after p text)
unfolding after Rest
after-Rest [] text = omega arith
after-Rest (p ∷ ps) [] = tt
after-Rest (p ∷ ps) (c ∷ cs) = elim (Bool-cases (p == c)) [
  | inr e ↦ rw (Rest, e) tt
  | inl e ↦ elim (Option-cases (after ps cs)) [
    | inl f ↦ rw (Rest, e, f) tt
    | inr (r, f) ↦ rw (Rest, e, f) (omega (arith, subst (Rest cs (length ps)) f (after-Rest ps cs)))
  ]
]

split_first-Parts : (m text : Text) → Parts text (length m) (split_first m text)
unfolding split_first Parts Rest
split_first-Parts m [] = elim (Option-cases (after m [])) [
  | inl e ↦ rw (Parts, e) tt
  | inr (r, e) ↦ rw (Parts, e) (omega (arith, subst (Rest [] (length m)) e (after-Rest m [])))
]
split_first-Parts m (c ∷ cs) = elim (Option-cases (after m (c ∷ cs))) [
  | inr (r, e) ↦
      rw (Parts, e) (omega (arith, subst (Rest (c ∷ cs) (length m)) e (after-Rest m (c ∷ cs))))
  | inl e ↦ elim (Option-cases (split_first m cs)) [
    | inl f ↦ rw (Parts, e, f) tt
    | inr (p, f) ↦
        rw (Parts, e, f) (omega (arith, subst (Parts cs (length m)) f (split_first-Parts m cs)))
  ]
]

length-lstrip : (t : Text) → length (lstrip t) ≤ length t
unfolding lstrip
length-lstrip [] = omega arith
length-lstrip (c ∷ cs) = elim (Bool-cases (is_space c)) [
  | inl e ↦ rw e (omega (arith, length-lstrip cs))
  | inr e ↦ rw e (omega arith)
]

length-rstrip : (t : Text) → length (rstrip t) ≤ length t
unfolding rstrip
length-rstrip [] = omega arith
length-rstrip (c ∷ cs) = elim (List-cases (rstrip cs)) [
  | inr (d, ds, e) ↦ rw e (omega (arith, subst (λ t. length t ≤ length cs) e (length-rstrip cs)))
  | inl e ↦ elim (Bool-cases (is_space c)) [
    | inl f ↦ rw (e, f) (omega arith)
    | inr f ↦ rw (e, f) (omega arith)
  ]
]

length-strip : (t : Text) → length (strip t) ≤ length t
length-strip t = omega (arith, length-lstrip t, length-rstrip (lstrip t))

-- A round is over, and its text is shorter than what stood before and behind the command.
unfoldable IsShorter : ℕ → Expansion → Type 0
IsShorter bound running = ⊥
IsShorter bound refused = Unit
IsShorter bound (expanded next) = length next < bound

expand_one-IsShorter :
    (start rest : Text) → IsShorter (length start + length rest) (expand_one start rest)
unfolding expand_one IsShorter take_braced Parts Rest
expand_one-IsShorter start rest = elim (Option-cases (take_from 1 rest)) [
  | inl e ↦ rw (IsShorter, e) tt
  | inr (p, e) ↦ elim (Option-cases (after (123 ∷ []) p.1)) [
    | inl f ↦ rw (IsShorter, e, f) tt
    | inr (r, f) ↦ elim (Option-cases (take_from 1 r)) [
      | inl g ↦ rw (IsShorter, e, f, g) tt
      | inr (q, g) ↦
          rw
            (
              IsShorter,
              e,
              f,
              g,
              length-append start (strip p.0 ++ (47 ∷ (strip q.0 ++ q.1))),
              length-append (strip p.0) (47 ∷ (strip q.0 ++ q.1)),
              length-append (strip q.0) q.1,
            )
            (omega (
              arith,
              length-strip p.0,
              length-strip q.0,
              subst (Parts rest 1) e (take_from-Parts 1 rest),
              subst (Rest p.1 1) f (after-Rest (123 ∷ []) p.1),
              subst (Parts r 1) g (take_from-Parts 1 r),
            ))
    ]
  ]
]

Expansion-cases : (o : Expansion) → (o ≡ running) ⊎ (o ≡ refused) ⊎ ((t : Text) × (o ≡ expanded t))
Expansion-cases running = inl refl
Expansion-cases refused = inr (inl refl)
Expansion-cases (expanded t) = inr (inr (t, refl))

-- A loop that is over: refused, or with a text that has no command left and is not longer.
unfoldable pub IsOver : Text → Text → Expansion → Type 0
IsOver command text running = ⊥
IsOver command text refused = Unit
IsOver command text (expanded out) = (split_first command out ≡ none) × (length out ≤ length text)

IsOver-longer :
    (command s t : Text) (o : Expansion)
    → length s ≤ length t
    → IsOver command s o
    → IsOver command t o
unfolding IsOver
IsOver-longer command s t running le h = absurd h
IsOver-longer command s t refused le h = tt
IsOver-longer command s t (expanded out) le (gone, h) = (gone, omega (arith, le, h))

expand-IsOver :
    (fuel : ℕ) (command text : Text)
    → length text < fuel
    → IsOver command text (expand fuel command text)
unfolding expand IsOver Parts IsShorter
expand-IsOver zero command text h = omega (arith, h)
expand-IsOver (suc fuel) command text h = elim (Option-cases (split_first command text)) [
  | inl e ↦ rw (IsOver, e) (e, omega arith)
  | inr (p, e) ↦
      let split : Parts text (length command) (some p) =
        subst (Parts text (length command)) e (split_first-Parts command text) in
      let shorter = expand_one-IsShorter p.0 p.1 in
      elim (Expansion-cases (expand_one p.0 p.1)) [
        | inl f ↦ absurd (subst (IsShorter (length p.0 + length p.1)) f shorter)
        | inr (inl f) ↦ rw (IsOver, e, f) tt
        | inr (inr (next, f)) ↦
            let less : length next < length p.0 + length p.1 =
              subst (IsShorter (length p.0 + length p.1)) f shorter in
            rw (IsOver, e, f)
              (IsOver-longer command next text (expand fuel command next)
                (omega (arith, less, split))
                (expand-IsOver fuel command next (omega (arith, less, split, h))))
      ]
]

-- The loop that replaces one command of fractions ends within as many rounds as the text has
-- characters: it refuses the text, or leaves one that has no such command and is not longer.
pub expand_all-IsOver : (command text : Text) → IsOver command text (expand_all command text)
expand_all-IsOver command text = expand-IsOver (suc (length text)) command text (omega arith)
