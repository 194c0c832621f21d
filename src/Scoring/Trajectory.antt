-- ===== src/Scoring/Trajectory.antt =====
-- `read_scoring_trajectory`: the events of an episode, from a manifest and its segments.
pub mod Events
pub mod Complete
use uenv_design.Base.{not, ◌||◌, Option, none, some, List, [], ◌∷◌}
use uenv_design.Base.{◌==◌, ◌<>◌, length, nat_eq, string_eq}
use uenv_design.Result.{value_error, runtime_error}
use uenv_design.Exec.{Exec, pure, raise, lift, raise_if, ◌>>=◌, ◌>>◌}
use uenv_design.Wire.{ArtifactRef}
use uenv_design.Scoring.Lines.{Bytes, Manifest, Event, Decoder, splitlines, read_lines}
use uenv_design.Scoring.{Clock, check, ScoreInput}

module _ {W : Type 0} (d : Decoder) (k : Clock W) (read_artifact : ArtifactRef → Exec W Bytes) where
  -- `read`
  unfoldable pub read : ArtifactRef → Exec W Bytes
  read reference = do
    check k "SCORER_TIMEOUT"
    content ← read_artifact reference
    raise_if
        (not (length content == reference.size_bytes)
          || not (("sha256:" <> d.sha256 content) == reference.digest))
        (value_error "Trajectory artifact integrity mismatch")
    pure content

  -- The loop over the segments.
  unfoldable pub read_segments : Manifest → List ArtifactRef → List Event → Exec W (List Event)
  read_segments manifest [] events = λ w. pure events w
  read_segments manifest (segment ∷ segments) events = λ w.
      (do
        content ← read segment
        more ← lift (read_lines d manifest (splitlines content) events)
        read_segments manifest segments more)
        w

  -- `read_scoring_trajectory` with a reader.
  unfoldable pub read_bound : ScoreInput → Exec W (List Event)
  read_bound request = do
    content ← read request.trajectory_ref
    manifest ← lift (d.manifest content)
    raise_if
        (not (manifest.trajectory_status == "scoring_checkpoint")
          || not (manifest.identity.task_id == request.task_id))
        (value_error "Expected this task scoring checkpoint")
    events ← read_segments manifest manifest.event_segments []
    raise_if (not (length events == manifest.event_count))
        (value_error "Trajectory event count mismatch")
    check k "SCORER_TIMEOUT"
    pure events

-- `read_scoring_trajectory`
unfoldable pub read_scoring_trajectory :
    {W : Type 0}
    → Decoder
    → Clock W
    → Option (ArtifactRef → Exec W Bytes)
    → ScoreInput
    → Exec W (List Event)
read_scoring_trajectory d k none request =
    raise (runtime_error "Worker-bound trajectory reader is unavailable")
read_scoring_trajectory d k (some reader) request = read_bound d k reader request
