-- ===== src/Datasets/Samples.antt =====
-- The adapters of the nine packages: their models are simple and their columns fill them.
pub mod Instances
pub mod Complete
use uenv_design.Base.{
  ℕ, suc, String, Bool, true, false, ◌||◌, ◌&&◌, Option, none, some, List, [], ◌∷◌,
}
use uenv_design.Base.{◌≡◌, ◌≢◌, refl, sym, ap, ◌∙◌, subst, All, all, contains, string_eq, ◌==◌, not}
use uenv_design.Base.{Bool-cases, inl, inr, arith}
use uenv_design.Base.Dict
use uenv_design.Base.Dict.{Dict, NodupKeys}
use uenv_design.Result.{Error, Result, ok, ok_inj, required, ◌>>=◌, ◌>>◌}
use uenv_design.Result.Holds.{
  Holds, Holds-return, Holds-raise, Holds-bind, Holds-check, Holds-required,
}
use uenv_design.Modeling.{
  Datum, str, instance_of, Attributes, Annotation, ModelClass, Classes, restore, init, envelope_of,
  model_from_envelope,
}
use uenv_design.Modeling.RoundTrip.{TypedFields}
use uenv_design.Modeling.Plain.{IsPlain, simple, restore-IsPlain}
use uenv_design.Modeling.Plain.Instances.{
  PlainDict, PlainMaybe, lookup-PlainDict, Kept, init-Kept, init_given, envelope-Kept,
}
use uenv_design.Datasets.Adapters.{
  Row, Column, column, or_empty, last_answer, answer_of, or_blank, Adapter, PreparedSample,
  read_column, read_columns, check_variant, normalize,
}
use uenv_design.Datasets.Gsm8k
use uenv_design.Datasets.Olymmath
use uenv_design.Datasets.Pubmedqa
use uenv_design.Datasets.Scitab
use uenv_design.Datasets.Dscodebench
use uenv_design.Datasets.Swe.{input_of, private_of, adapter_of}
use uenv_design.Datasets.Swe.Lite
use uenv_design.Datasets.Swe.Pro
use uenv_design.Datasets.Swe.Smith
use uenv_design.Datasets.Swe.Verified

-- The packages of the repository.
pub data DatasetPackage : Type 0 where
  gsm8k olymmath pubmedqa scitab dscodebench : DatasetPackage
  swe_lite swe_pro swe_smith swe_verified : DatasetPackage

abbrev pub adapter_for : DatasetPackage → Adapter
adapter_for gsm8k = Gsm8k.adapter
adapter_for olymmath = Olymmath.adapter
adapter_for pubmedqa = Pubmedqa.adapter
adapter_for scitab = Scitab.adapter
adapter_for dscodebench = Dscodebench.adapter
adapter_for swe_lite = Lite.adapter
adapter_for swe_pro = Pro.adapter
adapter_for swe_smith = Smith.adapter
adapter_for swe_verified = Verified.adapter

-- A class whose fields are simple, once each, with plain defaults, and the columns that fill it:
-- they are fields of the class, and a field without a column has a default.
pub record Fits (depth : ℕ) (c : ModelClass) (columns : Dict String Column) : Type 0 where
  pub simple_hints : All (λ hint. simple depth hint.1 ≡ true) c.hints
  pub once : NodupKeys c.hints
  pub plain_defaults : PlainDict c.defaults
  pub known : all (contains (Dict.keys c.hints)) (Dict.keys columns) ≡ true
  pub enough :
      all
        (λ name. contains (Dict.keys columns) name || contains (Dict.keys c.defaults) name)
        (Dict.keys c.hints)
      ≡ true

pub record IsSound (depth : ℕ) (a : Adapter) : Type 0 where
  pub input_fits : Fits depth a.input_model a.input_columns
  pub private_fits : Fits depth a.private_model a.private_columns

swe-IsSound :
    (depth : ℕ) (variant message name doc private_name private_doc : String)
    → IsSound
        (suc (suc (suc depth)))
        (adapter_of variant message (input_of name doc) (private_of private_name private_doc))
unfolding string_eq
swe-IsSound depth variant message name doc private_name private_doc = record {
  input_fits = record {
    simple_hints = (refl, (refl, (refl, (refl, (refl, tt)))));
    once = (refl, (refl, (refl, (refl, (refl, tt)))));
    plain_defaults = tt;
    known = refl;
    enough = refl;
  };
  private_fits = record {
    simple_hints = (refl, (refl, (refl, (refl, (refl, tt)))));
    once = (refl, (refl, (refl, (refl, (refl, tt)))));
    plain_defaults = (tt, tt);
    known = refl;
    enough = refl;
  };
}

pub adapter_for-IsSound :
    (depth : ℕ) (p : DatasetPackage) → IsSound (suc (suc (suc depth))) (adapter_for p)
unfolding string_eq
adapter_for-IsSound depth gsm8k = record {
  input_fits = record {
    simple_hints = (refl, tt);
    once = (refl, tt);
    plain_defaults = tt;
    known = refl;
    enough = refl;
  };
  private_fits = record {
    simple_hints = (refl, tt);
    once = (refl, tt);
    plain_defaults = tt;
    known = refl;
    enough = refl;
  };
}
adapter_for-IsSound depth olymmath = record {
  input_fits = record {
    simple_hints = (refl, (refl, (refl, (refl, tt))));
    once = (refl, (refl, (refl, (refl, tt))));
    plain_defaults = tt;
    known = refl;
    enough = refl;
  };
  private_fits = record {
    simple_hints = (refl, tt);
    once = (refl, tt);
    plain_defaults = tt;
    known = refl;
    enough = refl;
  };
}
adapter_for-IsSound depth pubmedqa = record {
  input_fits = record {
    simple_hints = (refl, (refl, tt));
    once = (refl, (refl, tt));
    plain_defaults = tt;
    known = refl;
    enough = refl;
  };
  private_fits = record {
    simple_hints = (refl, tt);
    once = (refl, tt);
    plain_defaults = tt;
    known = refl;
    enough = refl;
  };
}
adapter_for-IsSound depth scitab = record {
  input_fits = record {
    simple_hints = (refl, (refl, (refl, (refl, (refl, (refl, (refl, tt)))))));
    once = (refl, (refl, (refl, (refl, (refl, (refl, (refl, tt)))))));
    plain_defaults = tt;
    known = refl;
    enough = refl;
  };
  private_fits = record {
    simple_hints = (refl, tt);
    once = (refl, tt);
    plain_defaults = tt;
    known = refl;
    enough = refl;
  };
}
adapter_for-IsSound depth dscodebench = record {
  input_fits = record {
    simple_hints = (refl, (refl, (refl, tt)));
    once = (refl, (refl, (refl, tt)));
    plain_defaults = tt;
    known = refl;
    enough = refl;
  };
  private_fits = record {
    simple_hints = (refl, (refl, (refl, (refl, (refl, tt)))));
    once = (refl, (refl, (refl, (refl, (refl, tt)))));
    plain_defaults = (tt, tt);
    known = refl;
    enough = refl;
  };
}
adapter_for-IsSound depth swe_lite = swe-IsSound depth _ _ _ _ _ _
adapter_for-IsSound depth swe_pro = swe-IsSound depth _ _ _ _ _ _
adapter_for-IsSound depth swe_smith = swe-IsSound depth _ _ _ _ _ _
adapter_for-IsSound depth swe_verified = swe-IsSound depth _ _ _ _ _ _
