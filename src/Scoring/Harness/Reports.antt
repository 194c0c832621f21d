-- ===== src/Scoring/Harness/Reports.antt =====
-- What a score of `evaluate_harness` says of the harness that ran.
use uenv_design.Base.{ℕ, ◌≤◌, Bool, true, not, ◌==◌, leb, ltb, arith}
use uenv_design.Base.{Option, none, some, ◌≡◌, refl, ap, [], ◌∷◌, string_eq, option_eq}
use uenv_design.Result.{Result, ok}
use uenv_design.Result.Holds.{Holds, Holds-return, Holds-raise, Holds-if}
use uenv_design.Exec.{Exec}
use uenv_design.Exec.Returns.{
  Returns, Returns-lift, Returns-bind, Returns-reject, Returns-check, Returns-ran,
}
use uenv_design.Exec.Returns.{Returns-weaken}
use uenv_design.Modeling.{Datum}
use uenv_design.Scoring.{Clock, check, remaining_timeout_ms, ScoreInput, ScoreResult, float_of}
use uenv_design.Scoring.{ModelInstance}
use uenv_design.Scoring.Harness.{
  HarnessRequest, HarnessResult, Contract, timeout_ms, smaller, plan_of,
}
use uenv_design.Scoring.Harness.{explicit_score, command_of, envelope_of, optional_envelope}
use uenv_design.Scoring.Harness.{score_of, evaluate_bound, evaluate_harness}

-- The score is that of a report that a completed harness gave.
pub record Follows (report : HarnessResult) (score : ScoreResult) : Type 0 where
  pub completed : report.status ≡ some "ok"
  pub counted : report.tests_passed ≤ report.tests_run
  pub success : Bool
  pub explicit : report.success ≡ some success
  pub same_success : score.success ≡ some success
  pub same_reward : score.reward ≡ some (float_of success)
  pub cited : score.evidence ≡ report.report_ref ∷ []

explicit-Follows :
    (report : HarnessResult) (o : Option Bool)
    → report.status ≡ some "ok"
    → report.tests_passed ≤ report.tests_run
    → report.success ≡ o
    → Holds (Follows report) (explicit_score report o)
explicit-Follows report none completed counted explicit = Holds-raise _
explicit-Follows report (some b) completed counted explicit = Holds-return _ (record {
  completed = completed;
  counted = counted;
  success = b;
  explicit = explicit;
  same_success = refl;
  same_reward = refl;
  cited = refl;
})

score_of-Follows : (report : HarnessResult) → Holds (Follows report) (score_of report)
unfolding score_of
score_of-Follows report =
    Holds-if (ltb report.tests_run report.tests_passed) _ _ (λ over. Holds-raise _)
      λ counted.
        Holds-if (not (report.status == some "ok")) _ _ (λ other. Holds-raise _)
          λ completed. explicit-Follows report report.success (ground arith) (ground arith) refl

-- How a harness was asked.
pub record IsAsked (c : Contract) (request : ScoreInput) (command : HarnessRequest) : Type 0 where
  pub found : ModelInstance × Datum
  pub planned : plan_of request.private_data ≡ ok found
  pub valid_plan : c.valid_plan found.1 ≡ true
  pub allowed : ℕ
  pub limit : timeout_ms found.1 ≡ ok allowed
  pub positive : 1 ≤ command.remaining_timeout_ms
  pub bounded : command.remaining_timeout_ms ≤ allowed
  pub answered : command.final_answer ≡ request.final_answer
  pub enclosed : envelope_of found.0 ≡ ok command.private_data
  pub snapshot : optional_envelope request.state ≡ ok command.state
  pub valid_request : c.valid_request command ≡ true

pub record IsReported {W : Type 0} (c : Contract) (harness : HarnessRequest → Exec W HarnessResult)
    (request : ScoreInput) (score : ScoreResult) : Type 0 where
  pub command : HarnessRequest
  pub report : HarnessResult
  pub asked : IsAsked c request command
  pub ran : (w : W) × ((harness command w).0 ≡ ok report)
  pub valid_result : c.valid_result report ≡ true
  pub follows : Follows report score

Result-ran : {A : Type 0} (r : Result A) → Holds (λ a. r ≡ ok a) r
Result-ran r = record { at = λ a e. e }

smaller_le : (a b : ℕ) → smaller a b ≤ a
smaller_le a b = ground arith

module _ {W : Type 0} (c : Contract) (k : Clock W)
    (harness : HarnessRequest → Exec W HarnessResult) where
  evaluate_bound-IsReported :
      (request : ScoreInput)
      → Returns (IsReported c harness request) (evaluate_bound c k harness request)
  unfolding evaluate_bound
  evaluate_bound-IsReported request =
      Returns-bind _ _ (Returns-lift _ (Result-ran (plan_of request.private_data))) λ found planned.
        Returns-reject (not (c.valid_plan found.1)) _ _ λ valid_plan.
          Returns-bind _ _ (Returns-lift _ (Result-ran (timeout_ms found.1))) λ allowed limit.
            Returns-bind _ _ (Returns-ran (remaining_timeout_ms k)) λ left _.
              Returns-reject (leb (smaller allowed left) 0) _ _ λ positive.
                Returns-bind _ _ (Returns-lift _ (Result-ran (envelope_of found.0)))
                  λ private sealed.
                    Returns-bind _ _ (Returns-lift _ (Result-ran (optional_envelope request.state)))
                      λ state snapshot.
                        Returns-reject
                          (not (
                            c.valid_request
                              (command_of request (smaller allowed left) private state)))
                          _ _
                          λ valid_request.
                            Returns-bind _ _
                              (Returns-ran
                                (harness (command_of request (smaller allowed left) private state)))
                              λ report ran.
                                Returns-reject (not (c.valid_result report)) _ _ λ valid_result.
                                  Returns-weaken _
                                    (λ score follows. record {
                                      command =
                                          command_of request (smaller allowed left) private state;
                                      report = report;
                                      asked = record {
                                        found = found;
                                        planned = planned;
                                        valid_plan = ground arith;
                                        allowed = allowed;
                                        limit = limit;
                                        positive = ground arith;
                                        bounded = smaller_le allowed left;
                                        answered = refl;
                                        enclosed = sealed;
                                        snapshot = snapshot;
                                        valid_request = ground arith;
                                      };
                                      ran = ran;
                                      valid_result = ground arith;
                                      follows = follows;
                                    })
                                    (Returns-lift _ (score_of-Follows report))

-- A score of `evaluate_harness` is that of a run of the harness. The private data of the request has a plan
-- that the contract accepts. The harness was asked with the answer of the request, with the envelopes
-- of its private data and of its state, if it has one, and with a timeout of at least a millisecond and
-- at most the plan's. Its report is one that the contract accepts, completed, with no more tests passed than run
-- and an explicit success, which is the success and the reward of the score.
pub evaluate_harness-IsReported :
    {W : Type 0} (c : Contract) (k : Clock W) (harness : HarnessRequest → Exec W HarnessResult)
    (request : ScoreInput) (w w' : W) (score : ScoreResult)
    → evaluate_harness c k (some harness) request w ≡ (ok score, w')
    → IsReported c harness request score
unfolding evaluate_harness
evaluate_harness-IsReported c k harness request w w' score e =
    ((Returns-check (check k "SCORER_TIMEOUT") _
          (evaluate_bound-IsReported c k harness request)).holds
        w).at
      score (ap (λ o. o.0) e)
