-- ===== src/Datasets/Prompts.antt =====
-- The first observations: attributes of the input, texts and content parts.
use uenv_design.Base.{String, ◌<>◌, Option, none, some, string_eq}
use uenv_design.Base.Dict
use uenv_design.Result.{Result, ok, err, type_error, attribute_error, required, ◌>>=◌}
use uenv_design.Wire.{ArtifactRef}
use uenv_design.Modeling.{
  Datum, str, arr, obj, instance_of, Items, nil, cons, Attributes, attribute, end, dict_of, Classes,
  Envelope, model_to_envelope,
}

-- A content part as an environment builds it, before the host validates it.
pub data ContentPart : Type 0 where
  text : Datum → ContentPart
  structured : Envelope → ContentPart
  artifact : ArtifactRef → ContentPart

-- `input_data.name`
abbrev found : String → Option Datum → Result Datum
found name none = err (attribute_error name)
found name (some v) = ok v

unfoldable pub attribute_of : String → Datum → Result Datum
attribute_of name (instance_of model fields) = found name (Dict.lookup name (dict_of fields))
attribute_of name v = err (attribute_error name)

-- `"..." + value`
abbrev pub prefixed : String → Datum → Result String
prefixed s (str t) = ok (s <> t)
prefixed s v = err (type_error "can only concatenate str")

-- `separator.join(values)`: a member that is no `str` is refused. A `str` gives its characters, and a
-- dict its keys.
abbrev member : Datum → Result String
member (str s) = ok s
member v = err (type_error "sequence item: expected str instance")

-- The members behind the first one, each behind a separator.
abbrev joined_rest : String → Items → Result String
joined_rest separator nil = ok ""
joined_rest separator (cons v items) = do
  s ← member v
  rest ← joined_rest separator items
  ok ((separator <> s) <> rest)

abbrev joined_items : String → Items → Result String
joined_items separator nil = ok ""
joined_items separator (cons v items) = do
  s ← member v
  rest ← joined_rest separator items
  ok (s <> rest)

abbrev characters : String → Items
characters String.[] = nil
characters (String.◌∷◌ c s) = cons (str (String.◌∷◌ c "")) (characters s)

abbrev keys_of : Attributes → Items
keys_of end = nil
keys_of (attribute k v rest) = cons (str k) (keys_of rest)

unfoldable pub join : String → Datum → Result String
join separator (arr items) = joined_items separator items
join separator (str s) = joined_items separator (characters s)
join separator (obj fields) = joined_items separator (keys_of fields)
join separator v = err (type_error "can only join an iterable")

-- `text_part`
abbrev pub text_part : Datum → ContentPart
text_part v = text v

-- `structured_part`. The class of an instance is the one that is known by its name.
unfoldable pub structured_part : Classes → Datum → Result ContentPart
structured_part classes (instance_of name fields) = do
  c ← required name (Dict.lookup name classes)
  e ← model_to_envelope c fields
  ok (structured e)
structured_part classes v = err (type_error "Structured content requires a registered UEnvModel")
