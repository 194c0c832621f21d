-- ===== src/Tests/ScorerRuns.antt =====
-- A scorer host whose world counts the calls of the scorer.
use uenv_design.Base.{ℕ, suc, true, none, ◌≡◌, refl, [], ◌∷◌, string_eq, option_eq}
use uenv_design.Value.{bool}
use uenv_design.Wire.{component_eq, text}
use uenv_design.Modeling.{model_from_envelope, init, fill, restore, restore_bare}
use uenv_design.Task.{task_from_wire}
use uenv_design.Scoring.{binary_score}
use uenv_design.ScorerHost.{ScorerWorld, ScoreParams, new_host, score, accept, call_scorer}
use uenv_design.ScorerHost.Once.{
  score_request, close_request, AtMostOnce, serve, serve_all, serve_all-once,
}
use uenv_design.Tests.TaskData.{component, input_class, wire_task, empty_config}

abbrev scorer_world : ScorerWorld ℕ
scorer_world = record {
  models = record {
    component = component;
    input_model = input_class;
    scorer_config_model = none;
    private_data_model = none;
    state_model = none;
  };
  valid_config = λ c. true;
  valid_request = λ p. true;
  depth = 9;
  classes = [];
  monotonic = λ w. (w, w);
  scorer = λ call deadline w. (binary_score (bool true), suc w);
}

abbrev score_params : ScoreParams
score_params = record {
  dataset_package = component;
  config = empty_config;
  task = wire_task;
  final_answer = text "a" ∷ [];
  trajectory_ref = record { uri = ""; digest = ""; size_bytes = 0; media_type = "" };
  private_data = none;
  state = none;
  remaining_timeout_ms = 1;
}

scored_once :
    (serve_all scorer_world
      (score_request score_params ∷ score_request score_params ∷ [])
      (new_host, 0)).1
    ≡ 1
unfolding serve_all serve score accept call_scorer task_from_wire model_from_envelope init fill
    restore restore_bare string_eq option_eq component_eq
scored_once = refl

serve_all-once_example :
    AtMostOnce scorer_world 0
      (serve_all scorer_world
        (score_request score_params ∷ close_request ∷ score_request score_params ∷ [])
        (new_host, 0)).1
serve_all-once_example =
    serve_all-once scorer_world
      (score_request score_params ∷ close_request ∷ score_request score_params ∷ []) 0
