-- ===== src/Scoring/Trajectory/Events.antt =====
-- What the bytes of the artifacts say of the events of a trajectory, beside `read_scoring_trajectory`.
use uenv_design.Base.{ℕ, suc, ◌+◌, false, ◌==◌, ◌<>◌}
use uenv_design.Base.{
  ◌≡◌, sym, ◌∙◌, ap, subst, List, [], ◌∷◌, ◌++◌, All, All-append, length, length-append, arith,
  nat_eq, string_eq,
}
use uenv_design.Result.{ok}
use uenv_design.Result.Holds.{
  Holds, Holds-return, Holds-require, Holds-reject, Holds-bind, Holds-weaken,
}
use uenv_design.Wire.{ArtifactRef}
use uenv_design.Scoring.Lines.{
  Bytes, identity_eq, Manifest, Event, Decoder, splitlines, is_empty, read_lines,
}
use mathlib.Core.List.{append_assoc, append-nil}

-- The artifact has the size and the digest of its reference.
pub record Intact (d : Decoder) (reference : ArtifactRef) (content : Bytes) : Type 0 where
  pub sized : length content ≡ reference.size_bytes
  pub digested : ("sha256:" <> d.sha256 content) ≡ reference.digest

abbrev pub Artifacts : Decoder → List ArtifactRef → List Bytes → Type 0
Artifacts d [] [] = Unit
Artifacts d (r ∷ rs) (c ∷ cs) = Intact d r c × Artifacts d rs cs
Artifacts d _ _ = ⊥

abbrev pub all_lines : List Bytes → List Bytes
all_lines [] = []
all_lines (c ∷ cs) = splitlines c ++ all_lines cs

-- Each line is one event.
abbrev pub Decodes : Decoder → List Bytes → List Event → Type 0
Decodes d [] [] = Unit
Decodes d (l ∷ ls) (e ∷ es) = (is_empty l ≡ false) × (d.event l ≡ ok e) × Decodes d ls es
Decodes d _ _ = ⊥

-- The sequence numbers go up by one.
abbrev pub Numbered : ℕ → List Event → Type 0
Numbered n [] = Unit
Numbered n (e ∷ es) = (e.sequence ≡ n) × Numbered (suc n) es

abbrev pub Same : Manifest → Event → Type 0
Same m e = e.identity ≡ m.identity

Decodes-append :
    (d : Decoder) (ls ks : List Bytes) (es fs : List Event)
    → Decodes d ls es
    → Decodes d ks fs
    → Decodes d (ls ++ ks) (es ++ fs)
Decodes-append d [] ks [] fs h k = k
Decodes-append d (l ∷ ls) ks (e ∷ es) fs (full, event, h) k =
    (full, event, Decodes-append d ls ks es fs h k)
Decodes-append d [] ks (e ∷ es) fs h k = absurd h
Decodes-append d (l ∷ ls) ks [] fs h k = absurd h

Numbered-append :
    (n : ℕ) (es fs : List Event)
    → Numbered n es
    → Numbered (n + length es) fs
    → Numbered n (es ++ fs)
Numbered-append n [] fs h k = subst (λ i. Numbered i fs) (omega arith) k
Numbered-append n (e ∷ es) fs (first, h) k =
    (first, Numbered-append (suc n) es fs h (subst (λ i. Numbered i fs) (omega arith) k))

-- What reading adds to the events so far.
pub record Added (d : Decoder) (m : Manifest) (lines : List Bytes) (old out : List Event)
    : Type 0 where
  pub new : List Event
  pub extends : out ≡ old ++ new
  pub decoded : Decodes d lines new
  pub numbered : Numbered (length old) new
  pub same : All (Same m) new

Added-none : (d : Decoder) (m : Manifest) (old : List Event) → Added d m [] old old
Added-none d m old = record {
  new = [];
  extends = sym (append-nil old);
  decoded = tt;
  numbered = tt;
  same = tt;
}

Added-first :
    (d : Decoder) (m : Manifest) (line : Bytes) (lines : List Bytes) (old out : List Event)
    (e : Event)
    → is_empty line ≡ false
    → d.event line ≡ ok e
    → e.identity ≡ m.identity
    → e.sequence ≡ length old
    → Added d m lines (old ++ e ∷ []) out
    → Added d m (line ∷ lines) old out
Added-first d m line lines old out e full event same number a = record {
  new = e ∷ a.new;
  extends = a.extends ∙ append_assoc old (e ∷ []) a.new;
  decoded = (full, event, a.decoded);
  numbered = (
    number,
    subst (λ i. Numbered i a.new) (omega (arith, length-append old (e ∷ []))) a.numbered,
  );
  same = (same, a.same);
}

pub read_lines-Added :
    (d : Decoder) (m : Manifest) (lines : List Bytes) (old : List Event)
    → Holds (Added d m lines old) (read_lines d m lines old)
unfolding read_lines
read_lines-Added d m [] old = Holds-return old (Added-none d m old)
read_lines-Added d m (line ∷ lines) old = Holds-reject _ _ _ λ full.
    Holds-bind (d.event line) _ λ e event. Holds-require (e.identity == m.identity) _ _ λ same.
      Holds-require (e.sequence == length old) _ _ λ number.
        Holds-weaken _
          (λ out. Added-first d m line lines old out e full event (ground arith) (ground arith))
          (read_lines-Added d m lines (old ++ e ∷ []))

Added-append :
    (d : Decoder) (m : Manifest) (lines more : List Bytes) (old mid out : List Event)
    → Added d m lines old mid
    → Added d m more mid out
    → Added d m (lines ++ more) old out
Added-append d m lines more old mid out a b = record {
  new = a.new ++ b.new;
  extends = b.extends ∙ rw a.extends (append_assoc old a.new b.new);
  decoded = Decodes-append d lines more a.new b.new a.decoded b.decoded;
  numbered =
      Numbered-append (length old) a.new b.new a.numbered
        (subst (λ i. Numbered i b.new) (ap length a.extends ∙ length-append old a.new) b.numbered);
  same = All-append (Same m) a.new b.new a.same b.same;
}

-- The events are those of the lines of artifacts that were read intact.
pub record Read (d : Decoder) (m : Manifest) (segments : List ArtifactRef) (old out : List Event)
    : Type 0 where
  pub contents : List Bytes
  pub intact : Artifacts d segments contents
  pub added : Added d m (all_lines contents) old out

pub Read-none : (d : Decoder) (m : Manifest) (old : List Event) → Read d m [] old old
Read-none d m old = record { contents = []; intact = tt; added = Added-none d m old }

pub Read-first :
    (d : Decoder) (m : Manifest) (r : ArtifactRef) (rs : List ArtifactRef) (content : Bytes)
    (old mid out : List Event)
    → Intact d r content
    → Added d m (splitlines content) old mid
    → Read d m rs mid out
    → Read d m (r ∷ rs) old out
Read-first d m r rs content old mid out i a b = record {
  contents = content ∷ b.contents;
  intact = (i, b.intact);
  added = Added-append d m (splitlines content) (all_lines b.contents) old mid out a b.added;
}
