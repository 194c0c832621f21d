-- ===== src/Strings.antt =====
-- Python's operations on `str` that dataset packages use, on native strings: `strip`, `rsplit` at a
-- marker, and the decimal digits of `str(int)`.
pub mod Codes
use uenv_design.Base.{
  ℕ, zero, suc, ◌-◌, ◌*◌, ◌+◌, ◌/◌, String, Option, none, some, ◌<>◌, List, [], ◌∷◌, Bool, true,
  false, ◌&&◌,
}
use uenv_design.Base.{◌==◌, ltb, nat_eq, if◌then◌else◌}
use uenv_design.Value.{ℤ, pos, negsuc}
use uenv_design.Rules.{is_space}
use Prim.Native.Char.{Char, code}
use Prim.Native.String.{slice}

-- `str.lstrip`
unfoldable pub lstrip : String → String
lstrip String.[] = ""
lstrip (String.◌∷◌ c s) = let rest = lstrip s in if is_space (code c) then rest else String.◌∷◌ c s

-- `str.rstrip`
unfoldable pub rstrip : String → String
rstrip String.[] = ""
rstrip (String.◌∷◌ c s) = elim (rstrip s) [
  | String.[] ↦ if is_space (code c) then "" else String.◌∷◌ c ""
  | String.◌∷◌ d t ↦ String.◌∷◌ c (String.◌∷◌ d t)
]

-- `str.strip`
abbrev pub strip : String → String
strip s = rstrip (lstrip s)

-- What is left behind a prefix.
unfoldable pub after : String → String → Option String
after String.[] s = some s
after (String.◌∷◌ p ps) String.[] = none
after (String.◌∷◌ p ps) (String.◌∷◌ c s) =
    let rest = after ps s in if code p == code c then rest else none

-- What stands behind the last occurrence of a marker.
unfoldable pub behind_last : String → String → Option String
behind_last marker String.[] = after marker ""
behind_last marker (String.◌∷◌ c s) = elim (behind_last marker s) [
  | some rest ↦ some rest
  | none ↦ after marker (String.◌∷◌ c s)
]

-- `s.rsplit(marker, 1)[-1]`
unfoldable pub last_part : String → String → String
last_part marker s = elim (behind_last marker s) [ none ↦ s | some rest ↦ rest ]

-- One decimal digit.
abbrev digit : ℕ → String
digit d = slice "0123456789" d (suc d)

-- The digits of a number. A number has fewer digits than its successor counts.
unfoldable pub digits : ℕ → ℕ → String
digits zero n = ""
digits (suc fuel) n =
    let rest = digits fuel (n / 10) in
    if ltb n 10 then digit n else rest <> digit (n - 10 * (n / 10))

abbrev pub decimal : ℕ → String
decimal n = digits (suc n) n

-- `str` of an `int`.
abbrev pub integer : ℤ → String
integer (pos n) = decimal n
integer (negsuc n) = "-" <> decimal (suc n)

abbrev push : Char → List String → List String
push c [] = String.◌∷◌ c "" ∷ []
push c (s ∷ ss) = String.◌∷◌ c s ∷ ss

-- `s.split(c)`, with the code point of `c`.
unfoldable pub split_on : ℕ → String → List String
split_on m String.[] = "" ∷ []
split_on m (String.◌∷◌ c s) =
    let rest = split_on m s in if code c == m then "" ∷ rest else push c rest

-- `s.startswith(prefix)`
abbrev pub starts_with : String → String → Bool
starts_with prefix s = elim (after prefix s) [ none ↦ false | some rest ↦ true ]

-- `s.replace(old, new)` for an `old` of two characters, by their code points.
unfoldable pub replace_pair : ℕ → ℕ → String → String → String
replace_pair a b new String.[] = ""
replace_pair a b new (String.◌∷◌ c String.[]) = String.◌∷◌ c ""
replace_pair a b new (String.◌∷◌ c (String.◌∷◌ d s)) =
    let skipped = replace_pair a b new s in
    let rest = replace_pair a b new (String.◌∷◌ d s) in
    if code c == a && code d == b then new <> skipped else String.◌∷◌ c rest

-- `s.lstrip(c)`, with the code point of `c`.
unfoldable pub lstrip_char : ℕ → String → String
lstrip_char m String.[] = ""
lstrip_char m (String.◌∷◌ c s) =
    let rest = lstrip_char m s in if code c == m then rest else String.◌∷◌ c s

-- `s.partition(c)`, without the separator.
unfoldable pub partition : ℕ → String → String × String
partition m String.[] = ("", "")
partition m (String.◌∷◌ c s) =
    let rest = partition m s in if code c == m then ("", s) else (String.◌∷◌ c rest.0, rest.1)
