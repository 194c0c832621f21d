-- ===== src/Datasets/Adapters.antt =====
-- `DatasetAdapter.normalize` of the packages: how a row of the source becomes a sample. Every adapter
-- builds the id, the input and the private data from columns of the row, in this order.
use uenv_design.Base.{String, true, false, Option, none, some, [], ◌∷◌}
use uenv_design.Base.{◌==◌, not, string_eq, option_eq}
use uenv_design.Base.Dict
use uenv_design.Base.Dict.{Dict}
use uenv_design.Result.{Result, ok, err, value_error, attribute_error}
use uenv_design.Result.{raise_if, required, ◌>>=◌, ◌>>◌}
use uenv_design.Modeling.{Datum, null, bool, int, real, str, ModelClass, Annotation, init}
use uenv_design.Strings.{integer, last_part, strip}

-- A row of the source: a dict of JSON values.
abbrev pub Row : Type 0
Row = Dict String Datum

-- `PreparedSample`, without the `runtime` that no adapter gives.
pub record PreparedSample : Type 0 where
  pub sample_id : String
  pub input : Datum
  pub private_data : Datum

-- Where a field comes from: `row[key]`, `row.get(key, "")`, or
-- `row[key].rsplit("####", 1)[-1].strip()`.
pub data Column : Type 0 where
  column or_empty last_answer : String → Column

-- `x.rsplit("####", 1)[-1].strip()`, which only a `str` has.
abbrev pub answer_of : Datum → Result Datum
answer_of (str s) = ok (str (strip (last_part "####" s)))
answer_of v = err (attribute_error "rsplit")

abbrev pub or_blank : Option Datum → Datum
or_blank none = str ""
or_blank (some v) = v

unfoldable pub read_column : Row → Column → Result Datum
read_column row (column key) = required key (Dict.lookup key row)
read_column row (or_empty key) = ok (or_blank (Dict.lookup key row))
read_column row (last_answer key) = do v ← required key (Dict.lookup key row); answer_of v

-- The keyword arguments of a constructor, evaluated in their order.
unfoldable pub read_columns : Row → Dict String Column → Result (Dict String Datum)
read_columns row [] = ok []
read_columns row ((field, c) ∷ columns) = do
  v ← read_column row c
  rest ← read_columns row columns
  ok ((field, v) ∷ rest)

-- An adapter: the value that `benchmark_variant` must have, with the message of the refusal, the
-- column of the id, and the columns of the two models.
pub record Adapter : Type 0 where
  pub variant : Option (String × String)
  pub id_column : String
  pub input_model : ModelClass
  pub input_columns : Dict String Column
  pub private_model : ModelClass
  pub private_columns : Dict String Column

-- `row.get("benchmark_variant") != variant`
unfoldable pub check_variant : Option (String × String) → Row → Result (Unit {0})
check_variant none row = ok tt
check_variant (some (variant, message)) row = elim (Dict.lookup "benchmark_variant" row) [
  | some (str found) ↦ raise_if (not (found == variant)) (value_error message)
  | _ ↦ err (value_error message)
]

-- `str(value)`, where `repr` writes a list or a dict.
unfoldable pub text_of : (Datum → String) → Datum → String
text_of repr null = "None"
text_of repr (bool true) = "True"
text_of repr (bool false) = "False"
text_of repr (int n) = integer n
text_of repr (real r) = r
text_of repr (str s) = s
text_of repr v = repr v

-- `recur` restores a field by its annotation.
module _ (repr : Datum → String) (recur : Annotation → Datum → Result Datum) where
  -- `normalize`
  unfoldable pub normalize : Adapter → Row → Result PreparedSample
  normalize a row = do
    check_variant a.variant row
    id ← required a.id_column (Dict.lookup a.id_column row)
    given ← read_columns row a.input_columns
    input ← init recur a.input_model given
    hidden ← read_columns row a.private_columns
    private ← init recur a.private_model hidden
    ok (record { sample_id = text_of repr id; input = input; private_data = private })
