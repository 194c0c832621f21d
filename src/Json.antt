-- ===== src/Json.antt =====
-- `json.dumps(value, ensure_ascii=False)`, with the separators ", " and ": ". A finite float is its `repr`.
use uenv_design.Base.{ℕ, ◌-◌, ◌/◌, ◌*◌, String, ◌<>◌, true, false, ◌==◌, ltb, nat_eq, suc}
use uenv_design.Base.{if◌then◌else◌}
use uenv_design.Modeling.{
  Datum, null, bool, int, real, str, arr, obj, instance_of, Items, nil, cons, Attributes, attribute,
  end,
}
use uenv_design.Strings.{integer}
use Prim.Native.Char.{Char, code}
use Prim.Native.String.{slice}

-- A control character: the value is below 32.
abbrev control : ℕ → String
control n =
    ("\\u00" <> slice "01" (n / 16) (suc (n / 16)))
    <> slice "0123456789abcdef" (n - 16 * (n / 16)) (suc (n - 16 * (n / 16)))

unfoldable pub escape : Char → String
escape c =
    if code c == 34
    then "\\\""
    else if code c == 92
    then "\\\\"
    else if code c == 10
    then "\\n"
    else if code c == 13
    then "\\r"
    else if code c == 9
    then "\\t"
    else if code c == 12
    then "\\f"
    else if code c == 8
    then "\\b"
    else if ltb (code c) 32
    then control (code c)
    else String.◌∷◌ c ""

abbrev escape_all : String → String
escape_all String.[] = ""
escape_all (String.◌∷◌ c s) = escape c <> escape_all s

abbrev quoted : String → String
quoted s = ("\"" <> escape_all s) <> "\""

-- A member of an array or an object, and those behind it.
abbrev separated : String → String → String
separated first String.[] = first
separated first (String.◌∷◌ c s) = (first <> ", ") <> String.◌∷◌ c s

unfoldable mutual
  pub dumps : Datum → String
  dumps null = "null"
  dumps (bool true) = "true"
  dumps (bool false) = "false"
  dumps (int n) = integer n
  dumps (real r) = r
  dumps (str s) = quoted s
  dumps (arr items) = ("[" <> dumps_items items) <> "]"
  dumps (obj fields) = ("{" <> dumps_attributes fields) <> "}"
  dumps (instance_of name fields) = ("{" <> dumps_attributes fields) <> "}"

  pub dumps_items : Items → String
  dumps_items nil = ""
  dumps_items (cons v items) = separated (dumps v) (dumps_items items)

  pub dumps_attributes : Attributes → String
  dumps_attributes end = ""
  dumps_attributes (attribute k v rest) =
      separated ((quoted k <> ": ") <> dumps v) (dumps_attributes rest)
