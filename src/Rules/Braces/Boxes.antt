-- ===== src/Rules/Braces/Boxes.antt =====
-- What is taken out of braces stands between them.
use uenv_design.Base.{
  ◌+◌, ◌≤◌, if◌then◌else◌, ℕ, zero, suc, ◌≡◌, refl, sym, ap, ◌∙◌, subst, Option, none, some,
}
use uenv_design.Base.{
  [], ◌∷◌, ◌++◌, ◌==◌, ◌⊎◌, inl, inr, arith, nat_eq, option_eq, Option-cases, Bool-cases,
}
use uenv_design.Rules.{Text, after}
use uenv_design.Rules.Braces.{
  deeper, take_from, take_braced, unescaped, close, prepend, marker, box,
}
use uenv_design.Rules.Braces.{opens, latest, scan, extract_boxed}

-- How often a character stands in a text.
abbrev pub count : ℕ → Text → ℕ
count x [] = 0
count x (c ∷ cs) = let rest = count x cs in if c == x then suc rest else rest

abbrev pub take : ℕ → Text → Text
take zero t = []
take (suc n) [] = []
take (suc n) (c ∷ cs) = c ∷ take n cs

-- The text has as many opening braces as closing ones, and no beginning of it has more closing ones.
pub record Balanced (t : Text) : Type 0 where
  pub matched : count 123 t ≡ count 125 t
  pub nested : (n : ℕ) → count 125 (take n t) ≤ count 123 (take n t)

after-append : (p text rest : Text) → after p text ≡ some rest → text ≡ p ++ rest
unfolding after
after-append [] text rest h = ground arith
after-append (q ∷ p) [] rest h = cc
after-append (q ∷ p) (c ∷ text) rest h = ground (arith, after-append p text rest)

ℕ-cases : (n : ℕ) → (n ≡ 0) ⊎ ((m : ℕ) × (n ≡ suc m))
ℕ-cases zero = inl refl
ℕ-cases (suc m) = inr (m, refl)

prepend_inv :
    (c : ℕ) (o : Option (Text × Text)) (inside rest : Text)
    → prepend c o ≡ some (inside, rest)
    → (tail : Text) × (inside ≡ c ∷ tail) × (o ≡ some (tail, rest))
prepend_inv c none inside rest h = cc
prepend_inv c (some (tail, other)) inside rest h = (tail, cc, cc)

end_inv :
    (text inside rest : Text)
    → ◌≡◌ {A = Option (Text × Text)} (some ([], text)) (some (inside, rest))
    → (inside ≡ []) × (rest ≡ text)
end_inv text inside rest h = (cc, cc)

closes : (depth c : ℕ) → deeper (suc depth) c ≡ zero → (c ≡ 125) × (depth ≡ 0)
unfolding deeper
closes depth c h = ground arith

-- The braces of a text that begins within so many.
abbrev Levels : ℕ → Text → Type 0
Levels depth t =
    (depth + count 123 t ≡ count 125 t)
    × ((n : ℕ) → count 125 (take n t) ≤ depth + count 123 (take n t))

-- A character that leaves a brace open, in front of a text.
Levels-cons :
    (depth n c : ℕ) (tail : Text)
    → deeper (suc depth) c ≡ suc n
    → Levels n tail
    → Levels depth (c ∷ tail)
unfolding deeper
Levels-cons depth n c tail level (matched, nested) = (ground arith, first)
  where
    first : (k : ℕ) → count 125 (take k (c ∷ tail)) ≤ depth + count 123 (take k (c ∷ tail))
    first zero = omega arith
    first (suc k) = ground (arith, nested k)

take-nil : (k : ℕ) → take k [] ≡ []
take-nil zero = refl
take-nil (suc k) = refl

Levels-nil : Levels 0 []
Levels-nil = (refl, λ k. rw take-nil (omega arith))

take_from-Levels :
    (depth : ℕ) (text inside rest : Text)
    → take_from (suc depth) text ≡ some (inside, rest)
    → (text ≡ inside ++ 125 ∷ rest) × Levels depth inside
unfolding take_from
take_from-Levels depth [] inside rest h = cc
take_from-Levels depth (c ∷ text) inside rest h = elim (ℕ-cases (deeper (suc depth) c)) [
  | inl last ↦
      let (no_more, same) = end_inv text inside rest (rw (last, take_from) at h) in
      let (brace, bottom) = closes depth c last in
      (rw (no_more, same, brace) refl, rw (no_more, bottom) Levels-nil)
  | inr (n, level) ↦
      let (tail, first, found) =
        prepend_inv c (take_from (suc n) text) inside rest (rw (level, take_from) at h) in
      let (split, levels) = take_from-Levels n text tail rest found in
      (
        rw (first, split) refl,
        subst (Levels depth) (sym first) (Levels-cons depth n c tail level levels),
      )
]

-- What is taken stands at the beginning of the text, with a closing brace behind it and what is left behind
-- that brace. It has as many opening braces as closing ones, and no beginning of it has more closing
-- ones, so the closing brace behind it ends no brace of it.
pub take_braced-Balanced :
    (text inside rest : Text)
    → take_braced text ≡ some (inside, rest)
    → (text ≡ inside ++ 125 ∷ rest) × Balanced inside
unfolding take_braced
take_braced-Balanced text inside rest h =
    let (split, (matched, nested)) = take_from-Levels 0 text inside rest h in
    (split, record { matched = omega (arith, matched); nested = λ n. omega (arith, nested n) })

unescaped-closes : (previous depth c : ℕ) → unescaped previous (suc depth) c ≡ zero → c ≡ 125
unfolding unescaped deeper
unescaped-closes previous depth c h = ground arith

close-append :
    (previous depth : ℕ) (text inside rest : Text)
    → close previous (suc depth) text ≡ some (inside, rest)
    → text ≡ inside ++ 125 ∷ rest
unfolding close
close-append previous depth [] inside rest h = cc
close-append previous depth (c ∷ text) inside rest h =
    elim (ℕ-cases (unescaped previous (suc depth) c)) [
      | inl last ↦
          let (no_more, same) = end_inv text inside rest (rw (last, close) at h) in
          rw (no_more, same, unescaped-closes previous depth c last) refl
      | inr (n, level) ↦
          let (tail, first, found) =
            prepend_inv c (close c (suc n) text) inside rest (rw (level, close) at h) in
          rw (first, close-append c n text tail rest found) refl
    ]

-- The text has a box with this inside.
abbrev pub Boxed : Text → Text → Type 0
Boxed text inside =
    (before : Text) × (behind : Text) × (text ≡ before ++ (marker ++ (inside ++ 125 ∷ behind)))

Boxed-cons : (c : ℕ) (text inside : Text) → Boxed text inside → Boxed (c ∷ text) inside
Boxed-cons c text inside (before, behind, split) = (c ∷ before, behind, ap (λ t. c ∷ t) split)

none_some : {A : Type 0} {p : Text × Text} → ◌≡◌ {A = Option (Text × Text)} none (some p) → A
none_some h = absurd (ground arith)

latest_inv :
    (last : Option Text) (found : Option (Text × Text)) (inside : Text)
    → latest last found ≡ some inside
    → (last ≡ some inside) ⊎ ((tail : Text) × (found ≡ some (inside, tail)))
latest_inv last none inside h = inl h
latest_inv last (some (i, tail)) inside h = inr (tail, cc)

box_here :
    (previous : Option ℕ) (text inside tail : Text)
    → box (opens previous text) ≡ some (inside, tail)
    → Boxed text inside
unfolding opens
box_here previous text inside tail h = elim (Bool-cases (previous == some 92)) [
  | inl escaped ↦ none_some (rw escaped at h)
  | inr free ↦ elim (Option-cases (after marker text)) [
    | inl missing ↦ none_some (rw (free, missing) at h)
    | inr (rest, found) ↦ (
      [],
      tail,
      after-append marker text rest found
          ∙ ap (λ t. marker ++ t) (close-append 123 0 rest inside tail (rw (free, found) at h)),
    )
  ]
]

scan-Boxed :
    (skip : ℕ) (previous : Option ℕ) (last : Option Text) (text inside : Text)
    → scan skip previous last text ≡ some inside
    → (last ≡ some inside) ⊎ Boxed text inside
unfolding scan
scan-Boxed skip previous last [] inside h = inl h
scan-Boxed (suc skip) previous last (c ∷ cs) inside h =
    elim (scan-Boxed skip (some c) last cs inside h) [
      | inl same ↦ inl same
      | inr boxed ↦ inr (Boxed-cons c cs inside boxed)
    ]
scan-Boxed zero previous last (c ∷ cs) inside h = elim (scan-Boxed _ (some c) _ cs inside h) [
  | inl same ↦ elim (latest_inv last (box (opens previous (c ∷ cs))) inside same) [
    | inl earlier ↦ inl earlier
    | inr (tail, found) ↦ inr (box_here previous (c ∷ cs) inside tail found)
  ]
  | inr boxed ↦ inr (Boxed-cons c cs inside boxed)
]

-- The answer that is extracted stands in a box: `\boxed{`, the answer and a closing brace are a part of the
-- text.
pub extract_boxed-Boxed :
    (text inside : Text) → extract_boxed text ≡ some inside → Boxed text inside
unfolding extract_boxed
extract_boxed-Boxed text inside h = elim (scan-Boxed 0 none none text inside h) [
  | inl same ↦ absurd (ground arith)
  | inr boxed ↦ boxed
]
