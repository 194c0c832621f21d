-- ===== src/Rules/Braces.antt =====
-- `_take_braced` and `extract_boxed`: texts up to the brace that closes them.
pub mod Boxes
use uenv_design.Base.{ℕ, zero, suc, Bool, true, false, not, ◌&&◌, Option, none, some, List, [], ◌∷◌}
use uenv_design.Base.{◌++◌, ◌==◌, ◌+◌, length, nat_eq, option_eq, if◌then◌else◌}
use uenv_design.Rules.{Text, after}

abbrev pub less : ℕ → ℕ
less zero = zero
less (suc n) = n

-- `depth += (character == "{") - (character == "}")`, where the depth is at least one.
unfoldable pub deeper : ℕ → ℕ → ℕ
deeper depth c = if c == 123 then suc depth else if c == 125 then less depth else depth

abbrev pub prepend : ℕ → Option (Text × Text) → Option (Text × Text)
prepend c none = none
prepend c (some (inside, rest)) = some (c ∷ inside, rest)

-- The loop of `_take_braced`, with the depth. `none` is its `ValueError`.
unfoldable pub take_from : ℕ → Text → Option (Text × Text)
take_from depth [] = none
take_from depth (c ∷ cs) = elim (deeper depth c) [
  | zero ↦ some ([], cs)
  | suc n ↦ prepend c (take_from (suc n) cs)
]

-- `_take_braced`
unfoldable pub take_braced : Text → Option (Text × Text)
take_braced text = take_from 1 text

-- `if text[end-1] != "\\"`: an escaped brace does not count.
unfoldable pub unescaped : ℕ → ℕ → ℕ → ℕ
unescaped previous depth c = if previous == 92 then depth else deeper depth c

-- The inner loop of `extract_boxed`, with the character before.
unfoldable pub close : ℕ → ℕ → Text → Option (Text × Text)
close previous depth [] = none
close previous depth (c ∷ cs) = elim (unescaped previous depth c) [
  | zero ↦ some ([], cs)
  | suc n ↦ prepend c (close c (suc n) cs)
]

-- "\boxed{"
abbrev pub marker : Text
marker = 92 ∷ 98 ∷ 111 ∷ 120 ∷ 101 ∷ 100 ∷ 123 ∷ []

-- What stands in the box, if one begins here, and what is behind the marker.
abbrev pub box : Option Text → Option (Text × Text)
box none = none
box (some rest) = close 123 1 rest

-- What follows the marker, if it begins here and its backslash is not escaped.
unfoldable pub opens : Option ℕ → Text → Option Text
opens previous text = if previous == some 92 then none else after marker text

-- How many characters of the rest the index has passed, after the one that is looked at.
abbrev pub passed : Option Text → Option (Text × Text) → ℕ
passed none found = 0
passed (some rest) none = 6
passed (some rest) (some (inside, tail)) = 7 + length inside

abbrev pub latest : Option Text → Option (Text × Text) → Option Text
latest last none = last
latest last (some (inside, rest)) = some inside

-- The outer loop: how many characters the index is past this one, the character before, the last box.
unfoldable pub scan : ℕ → Option ℕ → Option Text → Text → Option Text
scan skip previous last [] = last
scan (suc skip) previous last (c ∷ cs) = scan skip (some c) last cs
scan zero previous last (c ∷ cs) =
    let rest = opens previous (c ∷ cs) in
    scan (passed rest (box rest)) (some c) (latest last (box rest)) cs

-- `extract_boxed`
unfoldable pub extract_boxed : Text → Option Text
extract_boxed text = scan 0 none none text
