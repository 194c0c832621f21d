-- ===== src/Provider/Selection.antt =====
-- Every tool call of a generation is of a tool that the command selected.
use uenv_design.Base.{ℕ, String, not, ◌||◌, ◌==◌, ◌≡◌, refl, ap, some, List, [], ◌∷◌}
use uenv_design.Base.{All, arith, string_eq, nat_eq, Bool-cases, Option-cases, inl, inr, ◌⊎◌}
use uenv_design.Base.Dict
use uenv_design.Base.Dict.{Dict, lookup-insert}
use uenv_design.Result.{Result, ok, err, Result-cases}
use uenv_design.Result.Holds.{Holds, Holds-return, Holds-raise, Holds-bind, Holds-reject}
use uenv_design.Wire.{Binding}
use uenv_design.Provider.{ProviderWorld}
use uenv_design.Provider.Chat.{Command, ChatCall, ProvidedCall, Provided, Reply, HttpRequest}
use uenv_design.Provider.{provided_calls, provided_of, reply_of}
use uenv_design.Provider.Chat.{bindings_from, bindings_of, falsy, content_of}
use uenv_design.Provider.{finish, send, generate, request_of, chosen}

abbrev pub Member : Binding → List Binding → Type 0
Member b [] = ⊥
Member b (c ∷ cs) = (b ≡ c) ⊎ Member b cs

-- The call names a binding of the command and has its implementation.
pub record IsSelected (bs : List Binding) (p : ProvidedCall) : Type 0 where
  pub binding : Binding
  pub member : Member binding bs
  pub same_name : p.call.name ≡ binding.name
  pub same_implementation : p.call.implementation ≡ binding.implementation

bindings_from-Member :
    (bs : List Binding) (d : Dict String Binding) (name : String) (b : Binding)
    → Dict.lookup name (bindings_from bs d) ≡ some b
    → Member b bs ⊎ (Dict.lookup name d ≡ some b)
bindings_from-Member [] d name b h = inr h
bindings_from-Member (c ∷ bs) d name b h =
    elim (bindings_from-Member bs (Dict.insert c.name c d) name b h) [
      | inl later ↦ inl (inr later)
      | inr inserted ↦ ground (arith, lookup-insert name c.name c d)
    ]

chosen-Member :
    {W : Type 0} (world : ProviderWorld W) (bs : List Binding) (name : String)
    → Holds (λ b. Member b bs) (chosen world (Dict.lookup name (bindings_of bs)))
unfolding bindings_of
chosen-Member world bs name = elim (Option-cases (Dict.lookup name (bindings_from bs []))) [
  | inl e ↦ rw e (Holds-raise _)
  | inr (b, e) ↦ rw e (
      Holds-return b
        (elim (bindings_from-Member bs [] name b e) [ inl m ↦ m | inr h ↦ absurd (ground arith) ]))
]

module _ {W : Type 0} (world : ProviderWorld W) (command : Command) where
  provided_calls-All :
      (items : List ChatCall)
      → Holds (All (IsSelected command.tools)) (provided_calls world command items)
  unfolding provided_calls
  provided_calls-All [] = Holds-return [] tt
  provided_calls-All (item ∷ items) =
      Holds-bind (chosen world (Dict.lookup item.name (bindings_of command.tools))) _ λ b e.
        Holds-bind (world.loads item.arguments) _ λ arguments _.
          Holds-bind (provided_calls world command items) _ λ rest more. Holds-return _ (
            record {
              binding = b;
              member = (chosen-Member world command.tools item.name).at b e;
              same_name = refl;
              same_implementation = refl;
            },
            (provided_calls-All items).at rest more,
          )

  provided_of-All :
      (reply : Reply) (duration_ms : ℕ)
      → Holds
          (λ p. All (IsSelected command.tools) p.tool_calls)
          (provided_of world command reply duration_ms)
  unfolding provided_of
  provided_of-All reply duration_ms =
      Holds-reject (not (falsy reply.reasoning_content) || not (falsy reply.refusal)) _ _ λ plain.
        Holds-bind (content_of reply.content) _ λ content _.
          Holds-bind (provided_calls world command reply.tool_calls) _
            λ calls made. Holds-return _ ((provided_calls-All reply.tool_calls).at calls made)

  finish-All :
      (started : ℕ) (raw : Result (List ℕ)) (w : W)
      → Holds
          (λ p. All (IsSelected command.tools) p.tool_calls)
          (finish world command started raw w).0
  finish-All started (err e) w = Holds-raise e
  finish-All started (ok raw) w =
      Holds-bind (reply_of world raw) _ λ reply _. provided_of-All reply _

  send-All :
      (request : HttpRequest) (w : W)
      → Holds (λ p. All (IsSelected command.tools) p.tool_calls) (send world command request w).0
  unfolding send
  send-All request w = elim (Bool-cases (command.model.max_transport_retries == 0)) [
    | inl e ↦ rw e (finish-All _ _ _)
    | inr e ↦ rw e (Holds-raise _)
  ]

  generate-All :
      (w : W)
      → Holds (λ p. All (IsSelected command.tools) p.tool_calls) (generate world command w).0
  unfolding generate
  generate-All w = elim (Result-cases (request_of world command)) [
    | inl (request, e) ↦ rw (e, generate) (send-All request w)
    | inr (x, e) ↦ rw (e, generate) (Holds-raise x)
  ]

-- Whatever the endpoint replies, every tool call of a generation has the name and the implementation of
-- a binding that the command selected.
pub generate-IsSelected :
    {W : Type 0} (world : ProviderWorld W) (command : Command) (w w' : W) (p : Provided)
    → generate world command w ≡ (ok p, w')
    → All (IsSelected command.tools) p.tool_calls
generate-IsSelected world command w w' p e = (generate-All world command w).at p (ap (λ o. o.0) e)
