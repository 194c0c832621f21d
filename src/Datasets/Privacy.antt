-- ===== src/Datasets/Privacy.antt =====
-- What a model sees of a sample does not depend on the columns that only the scorer may read.
use uenv_design.Base.{String, true, false, not, Option, none, some, List, [], ◌∷◌}
use uenv_design.Base.{◌≡◌, refl, sym, ap, ◌∙◌, All, all, contains, map, string_eq, arith}
use uenv_design.Base.Dict
use uenv_design.Base.Dict.{Dict}
use uenv_design.Result.{Result, ok, ok_inj, required, ◌>>=◌, ◌>>◌}
use uenv_design.Result.Holds.{Holds, Holds-return, Holds-bind, Holds-check, Holds-required}
use uenv_design.Modeling.{Datum, Annotation, init}
use uenv_design.Datasets.Adapters.{
  Row, Column, column, or_empty, last_answer, Adapter, PreparedSample, read_column, read_columns,
  check_variant, text_of, normalize,
}
use uenv_design.Datasets.Samples.{DatasetPackage, adapter_for}
use uenv_design.Datasets.Samples.{
  gsm8k, olymmath, pubmedqa, scitab, dscodebench, swe_lite, swe_pro, swe_smith, swe_verified,
}

abbrev pub key_of : Column → String
key_of (column key) = key
key_of (or_empty key) = key
key_of (last_answer key) = key

-- The columns of the row that the private data reads.
abbrev pub private_keys : Adapter → List String
private_keys a = map key_of (Dict.values a.private_columns)

abbrev public_keys : Adapter → List String
public_keys a = "benchmark_variant" ∷ a.id_column ∷ map key_of (Dict.values a.input_columns)

-- No column is read for both.
public_keys-apart :
    (p : DatasetPackage)
    → all (λ key. not (contains (private_keys (adapter_for p)) key)) (public_keys (adapter_for p))
      ≡ true
unfolding string_eq
public_keys-apart gsm8k = refl
public_keys-apart olymmath = refl
public_keys-apart pubmedqa = refl
public_keys-apart scitab = refl
public_keys-apart dscodebench = refl
public_keys-apart swe_lite = refl
public_keys-apart swe_pro = refl
public_keys-apart swe_smith = refl
public_keys-apart swe_verified = refl

-- Two rows that agree on some columns.
Agree : Row → Row → List String → Type 0
Agree row other keys = All (λ key. Dict.lookup key row ≡ Dict.lookup key other) keys

Agree-outside :
    (row other : Row) (hidden keys : List String)
    → ((key : String) → contains hidden key ≡ false → Dict.lookup key row ≡ Dict.lookup key other)
    → all (λ key. not (contains hidden key)) keys ≡ true
    → Agree row other keys
unfolding Agree
Agree-outside row other hidden [] same apart = tt
Agree-outside row other hidden (key ∷ keys) same apart =
    (same key (ground arith), Agree-outside row other hidden keys same (ground arith))

read_column-Agree :
    (row other : Row) (c : Column)
    → Dict.lookup (key_of c) row ≡ Dict.lookup (key_of c) other
    → read_column row c ≡ read_column other c
unfolding read_column
read_column-Agree row other (column key) same = rw same refl
read_column-Agree row other (or_empty key) same = rw same refl
read_column-Agree row other (last_answer key) same = rw same refl

read_columns-Agree :
    (row other : Row) (columns : Dict String Column)
    → Agree row other (map key_of (Dict.values columns))
    → read_columns row columns ≡ read_columns other columns
unfolding read_columns Agree
read_columns-Agree row other [] same = refl
read_columns-Agree row other ((field, c) ∷ columns) (same, others) =
    rw (read_column-Agree row other c same, read_columns-Agree row other columns others) refl

check_variant-Agree :
    (variant : Option (String × String)) (row other : Row)
    → Dict.lookup "benchmark_variant" row ≡ Dict.lookup "benchmark_variant" other
    → check_variant variant row ≡ check_variant variant other
unfolding check_variant
check_variant-Agree none row other same = refl
check_variant-Agree (some (variant, message)) row other same = rw (check_variant, same) refl

module _ (repr : Datum → String) (recur : Annotation → Datum → Result Datum) where
  -- The id and the input of a sample, on their own.
  visible : Adapter → Row → Result (String × Datum)
  visible a row = do
    check_variant a.variant row
    id ← required a.id_column (Dict.lookup a.id_column row)
    given ← read_columns row a.input_columns
    input ← init recur a.input_model given
    ok (text_of repr id, input)

  visible-normalize :
      (a : Adapter) (row : Row)
      → Holds (λ s. visible a row ≡ ok (s.sample_id, s.input)) (normalize repr recur a row)
  unfolding normalize visible
  visible-normalize a row = Holds-check (check_variant a.variant row) _ λ right.
      Holds-required a.id_column (Dict.lookup a.id_column row) _ λ id known.
        Holds-bind (read_columns row a.input_columns) _ λ given read.
          Holds-bind (init recur a.input_model given) _ λ input built.
            Holds-bind (read_columns row a.private_columns) _ λ hidden also_read.
              Holds-bind (init recur a.private_model hidden) _
                λ private also_built. Holds-return _ (rw (right, known, read, built) refl)

  visible-Agree :
      (a : Adapter) (row other : Row)
      → Agree row other (public_keys a)
      → visible a row ≡ visible a other
  unfolding visible Agree
  visible-Agree a row other (variant, (id, columns)) =
      rw
        (
          check_variant-Agree a.variant row other variant,
          id,
          read_columns-Agree row other a.input_columns columns,
        )
        refl

  -- The answer does not leak: two rows of a package that agree outside the columns of the private data
  -- become samples with the same id and the same input, if both become samples.
  pub normalize_private :
      (p : DatasetPackage) (row other : Row) (s t : PreparedSample)
      → ((key : String)
          → contains (private_keys (adapter_for p)) key ≡ false
          → Dict.lookup key row ≡ Dict.lookup key other)
      → normalize repr recur (adapter_for p) row ≡ ok s
      → normalize repr recur (adapter_for p) other ≡ ok t
      → (s.sample_id ≡ t.sample_id) × (s.input ≡ t.input)
  normalize_private p row other s t same made also_made =
      let a = adapter_for p in
      let both =
        ok_inj (s.sample_id, s.input) (t.sample_id, t.input)
          (sym ((visible-normalize a row).at s made)
            ∙ visible-Agree a row other (
                Agree-outside row other (private_keys a) (public_keys a) same (public_keys-apart p))
            ∙ (visible-normalize a other).at t also_made) in
      (ap (λ pair. pair.0) both, ap (λ pair. pair.1) both)
