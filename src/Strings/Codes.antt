-- ===== src/Strings/Codes.antt =====
-- The operations on strings are those on the lists of their code points.
use uenv_design.Base.{
  String, ◌≡◌, refl, Option, none, some, Bool-cases, Option-cases, ◌⊎◌, inl, inr,
}
use uenv_design.Base.{◌==◌, nat_eq}
use uenv_design.Rules.{Text, is_space}
use uenv_design.Rules
use uenv_design.Rules.Labels.{codes}
use uenv_design.Strings.{lstrip, rstrip, strip, after, behind_last, last_part}
use Prim.Native.Char.{Char, code}

codes-lstrip : (s : String) → codes (lstrip s) ≡ Rules.lstrip (codes s)
unfolding lstrip Rules.lstrip
codes-lstrip String.[] = refl
codes-lstrip (String.◌∷◌ c s) = elim (Bool-cases (is_space (code c))) [
  | inl e ↦ rw e (codes-lstrip s)
  | inr e ↦ rw e refl
]

String-cases : (s : String) → (s ≡ "") ⊎ ((c : Char) × (t : String) × (s ≡ String.◌∷◌ c t))
String-cases String.[] = inl refl
String-cases (String.◌∷◌ c t) = inr (c, t, refl)

codes-rstrip : (s : String) → codes (rstrip s) ≡ Rules.rstrip (codes s)
unfolding rstrip Rules.rstrip
codes-rstrip String.[] = refl
codes-rstrip (String.◌∷◌ c s) = elim (String-cases (rstrip s)) [
  | inl e ↦ elim (Bool-cases (is_space (code c))) [
    | inl f ↦ rw (← codes-rstrip s, e, f) refl
    | inr f ↦ rw (← codes-rstrip s, e, f) refl
  ]
  | inr (d, t, e) ↦ rw (← codes-rstrip s, e) refl
]

pub codes-strip : (s : String) → codes (strip s) ≡ Rules.strip (codes s)
codes-strip s = rw (codes-rstrip (lstrip s), codes-lstrip s) refl

codes_of : Option String → Option Text
codes_of none = none
codes_of (some s) = some (codes s)

codes-after : (p s : String) → codes_of (after p s) ≡ Rules.after (codes p) (codes s)
unfolding after Rules.after codes_of
codes-after String.[] s = refl
codes-after (String.◌∷◌ p ps) String.[] = refl
codes-after (String.◌∷◌ p ps) (String.◌∷◌ c s) = elim (Bool-cases (code p == code c)) [
  | inl e ↦ rw e (codes-after ps s)
  | inr e ↦ rw e refl
]

codes-behind_last :
    (m s : String) → codes_of (behind_last m s) ≡ Rules.behind_last (codes m) (codes s)
unfolding behind_last Rules.behind_last codes_of
codes-behind_last m String.[] = codes-after m ""
codes-behind_last m (String.◌∷◌ c s) = elim (Option-cases (behind_last m s)) [
  | inl e ↦ rw (← codes-behind_last m s, codes_of, e) (codes-after m (String.◌∷◌ c s))
  | inr (r, e) ↦ rw (← codes-behind_last m s, codes_of, e) refl
]

pub codes-last_part : (m s : String) → codes (last_part m s) ≡ Rules.last_part (codes m) (codes s)
unfolding last_part Rules.last_part codes_of
codes-last_part m s = elim (Option-cases (behind_last m s)) [
  | inl e ↦ rw (← codes-behind_last m s, Rules.last_part, last_part, e, codes_of) refl
  | inr (r, e) ↦ rw (← codes-behind_last m s, Rules.last_part, last_part, e, codes_of) refl
]
