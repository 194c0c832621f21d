-- ===== src/Scoring/Trajectory/Complete.antt =====
-- What the events of `read_scoring_trajectory` are, described from the bytes of the artifacts.
use uenv_design.Base.{not, ◌||◌, ◌==◌, ◌<>◌, Option, none, some}
use uenv_design.Base.{◌≡◌, sym, ap, subst, List, [], ◌∷◌, All, length, arith, nat_eq, string_eq}
use uenv_design.Result.{Result, ok}
use uenv_design.Result.Holds.{Holds}
use uenv_design.Exec.{Exec}
use uenv_design.Exec.Returns.{
  Returns, Returns-pure, Returns-lift, Returns-bind, Returns-reject, Returns-check, Returns-ran,
}
use uenv_design.Exec.Returns.{Returns-weaken}
use uenv_design.Wire.{ArtifactRef}
use uenv_design.Scoring.{Clock, ScoreInput}
use uenv_design.Scoring.Lines.{Bytes, identity_eq, Manifest, Event, Decoder, splitlines}
use uenv_design.Scoring.Trajectory.{read, read_segments, read_bound, read_scoring_trajectory}
use uenv_design.Scoring.Trajectory.Events.{
  Intact, Artifacts, all_lines, Decodes, Numbered, Same, read_lines-Added, Read, Read-none,
  Read-first,
}

-- What `read_scoring_trajectory` promises for its events.
pub record IsComplete (d : Decoder) (request : ScoreInput) (events : List Event) : Type 0 where
  pub manifest : Manifest
  pub manifest_bytes : Bytes
  pub manifest_intact : Intact d request.trajectory_ref manifest_bytes
  pub manifest_decoded : d.manifest manifest_bytes ≡ ok manifest
  pub frozen : manifest.trajectory_status ≡ "scoring_checkpoint"
  pub this_task : manifest.identity.task_id ≡ request.task_id
  pub contents : List Bytes
  pub intact : Artifacts d manifest.event_segments contents
  pub decoded : Decodes d (all_lines contents) events
  pub numbered : Numbered 0 events
  pub same : All (Same manifest) events
  pub counted : length events ≡ manifest.event_count

Result-ran : {A : Type 0} (r : Result A) → Holds (λ a. r ≡ ok a) r
Result-ran r = record { at = λ a e. e }

module _ {W : Type 0} (d : Decoder) (k : Clock W) (reader : ArtifactRef → Exec W Bytes) where
  read-Intact : (r : ArtifactRef) → Returns (Intact d r) (read d k reader r)
  unfolding read
  read-Intact r = Returns-check _ _ (
      Returns-bind _ _ (Returns-ran (reader r)) λ content ran.
        Returns-reject
          (not (length content == r.size_bytes)
            || not (("sha256:" <> d.sha256 content) == r.digest))
          _ _
          λ good. Returns-pure content (record { sized = ground arith; digested = ground arith }))

  read_segments-Read :
      (m : Manifest) (segments : List ArtifactRef) (old : List Event)
      → Returns (Read d m segments old) (read_segments d k reader m segments old)
  unfolding read_segments
  read_segments-Read m [] old = Returns-pure old (Read-none d m old)
  read_segments-Read m (r ∷ rs) old = Returns-bind _ _ (read-Intact r) λ content i.
      Returns-bind _ _ (Returns-lift _ (read_lines-Added d m (splitlines content) old)) λ mid a.
        Returns-weaken _ (λ out. Read-first d m r rs content old mid out i a)
          (read_segments-Read m rs mid)

  read_bound-IsComplete :
      (request : ScoreInput) → Returns (IsComplete d request) (read_bound d k reader request)
  unfolding read_bound
  read_bound-IsComplete request = Returns-bind _ _ (read-Intact request.trajectory_ref) λ content i.
      Returns-bind _ _ (Returns-lift _ (Result-ran (d.manifest content))) λ m decoded.
        Returns-reject
          (not (m.trajectory_status == "scoring_checkpoint")
            || not (m.identity.task_id == request.task_id))
          _ _
          λ expected. Returns-bind _ _ (read_segments-Read m m.event_segments []) λ events r.
            Returns-reject (not (length events == m.event_count)) _ _ λ counted. Returns-check _ _ (
              Returns-pure events (record {
                manifest = m;
                manifest_bytes = content;
                manifest_intact = i;
                manifest_decoded = decoded;
                frozen = ground arith;
                this_task = ground arith;
                contents = r.contents;
                intact = r.intact;
                decoded =
                    subst (Decodes d (all_lines r.contents)) (sym r.added.extends) r.added.decoded;
                numbered = subst (Numbered 0) (sym r.added.extends) r.added.numbered;
                same = subst (All (Same m)) (sym r.added.extends) r.added.same;
                counted = ground arith;
              }))

-- The events that a scorer gets are complete and unaltered. The manifest and every segment have the size
-- and the digest of their references, the manifest is that of a scoring checkpoint of this task, the
-- events are those of the lines of the segments, one per line and in order, their sequence numbers
-- are 0, 1, 2 and so on, each has the manifest's identity, and there are as many as the manifest says.
pub read_scoring_trajectory-IsComplete :
    {W : Type 0} (d : Decoder) (k : Clock W) (reader : Option (ArtifactRef → Exec W Bytes))
    (request : ScoreInput) (w w' : W) (events : List Event)
    → read_scoring_trajectory d k reader request w ≡ (ok events, w')
    → IsComplete d request events
unfolding read_scoring_trajectory
read_scoring_trajectory-IsComplete d k none request w w' events e = cc
read_scoring_trajectory-IsComplete d k (some reader) request w w' events e =
    ((read_bound-IsComplete d k reader request).holds w).at events (ap (λ o. o.0) e)
