-- ===== src/ScorerHost/Once.antt =====
-- The scorer of a package is called at most once in the life of its host.
use uenv_design.Base.{
  ℕ, true, ◌≡◌, refl, sym, ap, ◌∙◌, subst, List, [], ◌∷◌, ◌⊎◌, inl, inr, Bool-cases,
}
use uenv_design.Result.{Error, ok, err, rpc_error, Result-cases}
use uenv_design.ScorerHost.{ScoreParams, ScoreCall, ScorerHost, new_host, ScorerWorld, accept}
use uenv_design.ScorerHost.{call_scorer, score, close}

-- The requests of the Worker.
pub data Request : Type 0 where
  score_request : ScoreParams → Request
  close_request : Request

module _ {W : Type 0} (world : ScorerWorld W) where
  unfoldable pub serve : Request → ScorerHost × W → ScorerHost × W
  serve (score_request params) s = let (r, h', w') = score world params s in (h', w')
  serve close_request (h, w) = (close h, w)

  unfoldable pub serve_all : List Request → ScorerHost × W → ScorerHost × W
  serve_all [] s = s
  serve_all (r ∷ rs) s = serve_all rs (serve r s)

  accept_spent :
      (h : ScorerHost) (params : ScoreParams)
      → (h.called ≡ true) ⊎ (h.closed ≡ true)
      → accept world h params ≡ err (rpc_error "SCORER_CALL_STATE_INVALID")
  unfolding accept
  accept_spent h params (inl called) = rw called refl
  accept_spent h params (inr closed) = elim (Bool-cases h.called) [
    | inl e ↦ rw e refl
    | inr e ↦ rw (e, closed) refl
  ]

  serve-refused :
      (h : ScorerHost) (w : W) (params : ScoreParams) (e : Error)
      → accept world h params ≡ err e
      → serve (score_request params) (h, w) ≡ (h, w)
  unfolding serve score
  serve-refused h w params e refused = rw (refused, score) refl

  serve-accepted :
      (h : ScorerHost) (w : W) (params : ScoreParams) (call : ScoreCall)
      → accept world h params ≡ ok call
      → serve (score_request params) (h, w)
        ≡ (record h { called = true }, (call_scorer world call params.remaining_timeout_ms w).1)
  unfolding serve score
  serve-accepted h w params call accepted = rw (accepted, score) refl

  -- A host that has called its scorer or is closed does nothing to the world any more.
  serve_all_spent :
      (rs : List Request) (h : ScorerHost) (w : W)
      → (h.called ≡ true) ⊎ (h.closed ≡ true)
      → (serve_all rs (h, w)).1 ≡ w
  unfolding serve_all close serve
  serve_all_spent [] h w spent = refl
  serve_all_spent (score_request params ∷ rs) h w spent =
      ap (λ t. (serve_all rs t).1) (serve-refused h w params _ (accept_spent h params spent))
      ∙ serve_all_spent rs h w spent
  serve_all_spent (close_request ∷ rs) h w spent = serve_all_spent rs (close h) w (inr refl)

  -- The world is as it was, or as one call of the scorer leaves it.
  abbrev pub AtMostOnce : W → W → Type 0
  AtMostOnce w w' =
      (w' ≡ w)
      ⊎ ((call : ScoreCall) × (remaining : ℕ) × (w' ≡ (call_scorer world call remaining w).1))

  -- However many requests a host serves, in whatever order, the world is either as it was or as one
  -- call of the scorer leaves it.
  pub serve_all-once : (rs : List Request) (w : W) → AtMostOnce w (serve_all rs (new_host, w)).1
  unfolding serve_all close serve
  serve_all-once [] w = inl refl
  serve_all-once (close_request ∷ rs) w = inl (serve_all_spent rs (close new_host) w (inr refl))
  serve_all-once (score_request params ∷ rs) w =
      elim (Result-cases (accept world new_host params)) [
        | inr (e, refused) ↦
            subst (λ t. AtMostOnce w (serve_all rs t).1)
              (sym (serve-refused new_host w params e refused)) (serve_all-once rs w)
        | inl (call, accepted) ↦
            subst (λ t. AtMostOnce w (serve_all rs t).1)
              (sym (serve-accepted new_host w params call accepted))
              (inr (call, params.remaining_timeout_ms, serve_all_spent rs _ _ (inl refl)))
      ]
