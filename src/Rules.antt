-- ===== src/Rules.antt =====
-- reference/shared/src/uenv_reference_rules/__init__.py: the rules that score text answers. A text is the
-- list of its code points.
pub mod Braces
pub mod Labels
pub mod Numeric
pub mod Scores
use uenv_design.Base.{
  ℕ, zero, suc, ◌+◌, ◌-◌, Bool, true, false, not, ◌&&◌, ◌||◌, Option, none, some, List, [], ◌∷◌,
}
use uenv_design.Base.{◌++◌, ◌==◌, contains, leb, length, nat_eq, if◌then◌else◌}

abbrev pub Text : Type 0
Text = List ℕ

-- `str.isspace` on one code point.
unfoldable pub is_space : ℕ → Bool
is_space c =
    (leb 9 c && leb c 13)
    || (leb 28 c && leb c 32)
    || c == 133
    || c == 160
    || c == 5760
    || (leb 8192 c && leb c 8202)
    || contains (8232 ∷ 8233 ∷ 8239 ∷ 8287 ∷ 12288 ∷ []) c

-- `str.lstrip`
unfoldable pub lstrip : Text → Text
lstrip [] = []
lstrip (c ∷ cs) = let rest = lstrip cs in if is_space c then rest else c ∷ cs

-- What `str.rstrip` leaves: nothing, if all of it is space.
unfoldable pub rstrip : Text → Text
rstrip [] = []
rstrip (c ∷ cs) = elim (rstrip cs) [ [] ↦ if is_space c then [] else c ∷ [] | d ∷ ds ↦ c ∷ d ∷ ds ]

abbrev pub strip : Text → Text
strip text = rstrip (lstrip text)

-- `text.startswith(prefix)`, and what is left behind the prefix.
unfoldable pub after : Text → Text → Option Text
after [] text = some text
after (p ∷ ps) [] = none
after (p ∷ ps) (c ∷ cs) = let rest = after ps cs in if p == c then rest else none

abbrev pub starts_with : Text → Text → Bool
starts_with p text = elim (after p text) [ none ↦ false | some rest ↦ true ]

abbrev pub is_upper : ℕ → Bool
is_upper c = leb 65 c && leb c 90

-- `[A-Za-z0-9]`
abbrev pub is_alphanumeric : ℕ → Bool
is_alphanumeric c = is_upper c || (leb 97 c && leb c 122) || (leb 48 c && leb c 57)

-- `str.lower`, on ASCII.
unfoldable pub lower : ℕ → ℕ
lower c = if is_upper c then c + 32 else c

abbrev pub lower_all : Text → Text
lower_all [] = []
lower_all (c ∷ cs) = lower c ∷ lower_all cs

-- What stands behind the last occurrence of a marker.
unfoldable pub behind_last : Text → Text → Option Text
behind_last marker [] = after marker []
behind_last marker (c ∷ cs) = elim (behind_last marker cs) [
  | some rest ↦ some rest
  | none ↦ after marker (c ∷ cs)
]

-- `text.rsplit(marker, 1)[-1]`
unfoldable pub last_part : Text → Text → Text
last_part marker text = elim (behind_last marker text) [ none ↦ text | some rest ↦ rest ]

-- `text.index(marker)`: what stands before the first occurrence of a marker, and behind it.
unfoldable pub split_first : Text → Text → Option (Text × Text)
split_first marker [] = elim (after marker []) [ none ↦ none | some rest ↦ some ([], rest) ]
split_first marker (c ∷ cs) =
    let later = split_first marker cs in
    elim (after marker (c ∷ cs)) [
      | some rest ↦ some ([], rest)
      | none ↦ elim later [ none ↦ none | some (before, rest) ↦ some (c ∷ before, rest) ]
    ]
