-- ===== src/Scoring/Lines.antt =====
-- The records of a trajectory in the bytes of a segment.
use uenv_design.Base.{ℕ, String, Bool, true, false, not, List, [], ◌∷◌, ◌++◌}
use uenv_design.Base.{◌==◌, length, nat_eq, string_dec, Eq, if◌then◌else◌}
use uenv_design.Result.{Result, ok, value_error, raise_if, ◌>>=◌, ◌>>◌}
use uenv_design.Wire.{ArtifactRef}

abbrev pub Bytes : Type 0
Bytes = List ℕ

-- The four names that an event shares with its manifest.
pub record Identity : Type 0 where
  pub run_id : String
  pub episode_id : String
  pub attempt_id : String
  pub task_id : String

unfoldable pub Identity-discrete : Discrete Identity
Identity-discrete = hlevel string_dec

instance unfoldable pub identity_eq : Eq Identity
unfolding Identity-discrete
identity_eq = record { dec = Identity-discrete }

-- `TrajectoryManifest` and `TrajectoryEvent`, what is read of them.
pub record Manifest : Type 0 where
  pub trajectory_status : String
  pub identity : Identity
  pub event_segments : List ArtifactRef
  pub event_count : ℕ

pub record Event : Type 0 where
  pub identity : Identity
  pub sequence : ℕ

-- `hashlib.sha256(...).hexdigest()`, and `json.loads` followed by `registry.validate`.
pub record Decoder : Type 0 where
  pub sha256 : Bytes → String
  pub manifest : Bytes → Result Manifest
  pub event : Bytes → Result Event

pub data Break : Type 0 where
  line_feed carriage_return none_here : Break

abbrev break_of : ℕ → Break
break_of c = if c == 10 then line_feed else if c == 13 then carriage_return else none_here

abbrev flush : Bytes → List Bytes
flush [] = []
flush line = line ∷ []

-- A line feed after a carriage return ends no other line.
abbrev ended_by : Bool → Bytes → List Bytes → List Bytes
ended_by true line rest = rest
ended_by false line rest = line ∷ rest

-- `bytes.splitlines`, with whether a carriage return came just before, and the line so far.
unfoldable pub lines_from : Bool → Bytes → Bytes → List Bytes
lines_from returned line [] = flush line
lines_from returned line (c ∷ rest) = elim (break_of c) [
  | line_feed ↦ ended_by returned line (lines_from false [] rest)
  | carriage_return ↦ line ∷ lines_from true [] rest
  | none_here ↦ lines_from false (line ++ (c ∷ [])) rest
]

abbrev pub splitlines : Bytes → List Bytes
splitlines content = lines_from false [] content

abbrev pub is_empty : Bytes → Bool
is_empty [] = true
is_empty (c ∷ line) = false

module _ (d : Decoder) where
  -- The loop over the lines of a segment, with the events so far.
  unfoldable pub read_lines : Manifest → List Bytes → List Event → Result (List Event)
  read_lines manifest [] events = ok events
  read_lines manifest (line ∷ lines) events = do
    raise_if (is_empty line) (value_error "Empty trajectory record")
    event ← d.event line
    raise_if (not (event.identity == manifest.identity))
        (value_error "Trajectory identity mismatch")
    raise_if (not (event.sequence == length events)) (value_error "Incomplete scoring trajectory")
    read_lines manifest lines (events ++ (event ∷ []))
