-- ===== src/Datasets/Samples/Complete.antt =====
-- A row that has its columns becomes a sample.
use uenv_design.Base.{ℕ, suc, String, true, ◌≡◌, refl, some, [], ◌∷◌, All, string_eq, subst}
use uenv_design.Base.{sym, all, contains, ◌||◌}
use uenv_design.Base.Dict
use uenv_design.Base.Dict.{Dict}
use uenv_design.Result.{ok}
use uenv_design.Modeling.{Datum, str, ModelClass, Classes, restore, init}
use uenv_design.Modeling.Plain.{simple, restore-IsPlain}
use uenv_design.Modeling.Plain.Instances.{PlainDict, init_given}
use uenv_design.Strings.{strip, last_part}
use uenv_design.Datasets.Adapters.{
  Row, Column, column, or_empty, last_answer, PreparedSample, read_column, read_columns,
  check_variant, text_of, normalize,
}
use uenv_design.Datasets.Samples.{DatasetPackage, adapter_for, Fits, adapter_for-IsSound}
use uenv_design.Datasets.Samples.Instances.{read_columns-PlainDict}

-- The row has what the column needs: a value, and for an answer with a marker a `str`.
abbrev pub Present : Row → Column → Type 0
Present row (column key) = (v : Datum) × (Dict.lookup key row ≡ some v)
Present row (or_empty key) = Unit
Present row (last_answer key) = (s : String) × (Dict.lookup key row ≡ some (str s))

read_column-Present :
    (row : Row) (c : Column) → Present row c → (v : Datum) × (read_column row c ≡ ok v)
unfolding read_column
read_column-Present row (column key) (v, e) = (v, rw e refl)
read_column-Present row (or_empty key) h = (_, refl)
read_column-Present row (last_answer key) (s, e) = (str (strip (last_part "####" s)), rw e refl)

read_columns-Present :
    (row : Row) (columns : Dict String Column)
    → All (λ c. Present row c.1) columns
    → (given : Dict String Datum) × (read_columns row columns ≡ ok given)
unfolding read_columns
read_columns-Present row [] h = ([], refl)
read_columns-Present row ((field, c) ∷ columns) (h, hs) =
    let (v, e) = read_column-Present row c h in
    let (rest, f) = read_columns-Present row columns hs in ((field, v) ∷ rest, rw (e, f) refl)

-- The model that the columns of a row fill.
init-Present :
    (depth : ℕ) (classes : Classes) (c : ModelClass) (columns : Dict String Column) (row : Row)
    (given : Dict String Datum)
    → Fits depth c columns
    → PlainDict row
    → read_columns row columns ≡ ok given
    → (v : Datum) × (init (restore depth classes) c given ≡ ok v)
init-Present depth classes c columns row given fits plain read =
    let (same, given_plain) = (read_columns-PlainDict row columns plain).at given read in
    init_given (restore depth classes) (simple depth) (restore-IsPlain depth classes) c given
      fits.simple_hints fits.plain_defaults given_plain
      (subst (λ names. all (contains (Dict.keys c.hints)) names ≡ true) (sym same) fits.known)
      (subst
        (λ names.
          all (λ name. contains names name || contains (Dict.keys c.defaults) name)
            (Dict.keys c.hints)
          ≡ true)
        (sym same) fits.enough)

-- Nothing but a missing column refuses a row of JSON data: if the variant is the package's, the id is
-- there, every column that is read without a default is there, and GSM8K's answer is a string, then
-- the adapter of the package makes a sample.
pub normalize-Present :
    (repr : Datum → String) (depth : ℕ) (classes : Classes) (p : DatasetPackage) (row : Row)
    (id : Datum)
    → PlainDict row
    → check_variant (adapter_for p).variant row ≡ ok tt
    → Dict.lookup (adapter_for p).id_column row ≡ some id
    → All (λ c. Present row c.1) (adapter_for p).input_columns
    → All (λ c. Present row c.1) (adapter_for p).private_columns
    → (s : PreparedSample) × (normalize repr
          (restore (suc (suc (suc depth))) classes)
          (adapter_for p)
          row
        ≡ ok s)
unfolding normalize
normalize-Present repr depth classes p row id plain right known public hidden =
    let d = suc (suc (suc depth)) in
    let a = adapter_for p in
    let sound = adapter_for-IsSound depth p in
    let (given, e) = read_columns-Present row a.input_columns public in
    let (secret, f) = read_columns-Present row a.private_columns hidden in
    let (input, g) =
      init-Present d classes a.input_model a.input_columns row given sound.input_fits plain e in
    let (private, h) =
      init-Present d classes a.private_model a.private_columns row secret sound.private_fits plain
        f in
    (
      record { sample_id = text_of repr id; input = input; private_data = private },
      rw (right, known, e, g, f, h) refl,
    )
