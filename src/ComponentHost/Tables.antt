-- ===== src/ComponentHost/Tables.antt =====
-- The tables of an agent process: they are fixed once, and agree.
use uenv_design.Base.{
  String, ◌∙◌, not, ◌≡◌, refl, arith, List, [], ◌∷◌, Option, none, some, string_eq,
}
use uenv_design.Base.{true, option_eq}
use uenv_design.Wire.{Binding, binding_eq}
use uenv_design.ComponentHost.{AgentSpec, ComponentHost, ComponentWorld, Integration, same_bindings}
use uenv_design.Tools.{ToolDefinition}
use uenv_design.Base.Dict
use uenv_design.Base.Dict.{Dict}
use uenv_design.Result.{validation_error}
use uenv_design.Exec.{Exec, lift, modify}
use uenv_design.Exec.Preserves.{
  Preserves, Preserves-reject, Preserves-bind, Preserves-lift, Preserves-gets, Preserves-pure,
}
use uenv_design.ComponentHost.Preparing.{
  new_view, prepare_checked, define_tools, prepare_native, selected_python, by_id, runner, within,
  prepare_host,
}

pub same_bindings_eq : (bs cs : List Binding) → same_bindings bs cs ≡ true → bs ≡ cs
unfolding same_bindings
same_bindings_eq [] [] h = refl
same_bindings_eq [] (c ∷ cs) h = cc
same_bindings_eq (b ∷ bs) [] h = cc
same_bindings_eq (b ∷ bs) (c ∷ cs) h =
    let same : b ≡ c = ground arith in
    let others = same_bindings_eq bs cs (ground arith) in rw (same, others) refl

-- The tables, and what the agent was chosen by.
pub record Fixed {W : Type 0} (s t : ComponentHost W) : Type 0 where
  pub local : t.local_bindings ≡ s.local_bindings
  pub bound : t.bindings ≡ s.bindings
  pub chosen : t.agent_spec ≡ s.agent_spec

module _ {W : Type 0} (world : ComponentWorld W) where
  prepare_native-Fixed :
      (i : Integration W) (tools : List Binding) (model_id : String)
      (selected : Dict String (ToolDefinition W)) (s : ComponentHost W)
      → Fixed s (prepare_native world i tools model_id selected s).1
  unfolding prepare_native
  prepare_native-Fixed i tools model_id selected s = record {
    local = ground arith;
    bound = ground arith;
    chosen = ground arith;
  }

  define_tools-Fixed :
      (native : Option (Integration W)) (tools : List Binding) (model_id : String)
      (selected : Dict String (ToolDefinition W)) (s : ComponentHost W)
      → Fixed s (define_tools world native tools model_id selected s).1
  unfolding define_tools
  define_tools-Fixed (some i) tools model_id selected s =
      prepare_native-Fixed i tools model_id selected s
  define_tools-Fixed none tools model_id selected s = record {
    local = ground arith;
    bound = ground arith;
    chosen = ground arith;
  }

pub Fixed-trans : {W : Type 0} {s t u : ComponentHost W} → Fixed s t → Fixed t u → Fixed s u
Fixed-trans f g = record {
  local = g.local ∙ f.local;
  bound = g.bound ∙ f.bound;
  chosen = g.chosen ∙ f.chosen;
}

kept :
    {W A : Type 0} {old : ComponentHost W} (m : Exec (ComponentHost W) A)
    → ((s : ComponentHost W) → Fixed s (m s).1)
    → Preserves (Fixed old) m
kept m f = record { after = λ s h. Fixed-trans h (f s) }

module _ {W : Type 0} (world : ComponentWorld W) (spec : AgentSpec) (tools : List Binding)
    (model_id : String) (old : ComponentHost W) where
  pub prepare_checked-Preserves : Preserves (Fixed old) (prepare_checked world spec tools model_id)
  unfolding prepare_checked
  prepare_checked-Preserves =
      Preserves-reject (not (world.checks.valid_config spec.config))
        (validation_error "TypedConfig") _
        (Preserves-bind (lift (runner world (Dict.lookup spec.implementation.id world.agent_types)))
          _ (Preserves-lift _)
          λ agent.
            Preserves-bind (within world (agent.construct spec.config.content)) _
              (kept _ λ s. record { local = refl; bound = refl; chosen = refl })
              λ _.
                Preserves-bind
                  (modify (λ s. record s { agent = some agent; context = some (new_view tools) })) _
                  (kept _ λ s. record { local = refl; bound = refl; chosen = refl })
                  λ _.
                    Preserves-bind (lift (selected_python world tools [])) _ (Preserves-lift _)
                      λ selected.
                        Preserves-bind (define_tools world agent.native tools model_id selected) _
                          (kept _ (define_tools-Fixed world agent.native tools model_id selected))
                          λ _.
                            Preserves-gets (λ s. s.definitions) _
                              λ definitions.
                                Preserves-bind (lift (by_id world definitions tools [])) _
                                  (Preserves-lift _)
                                  λ found.
                                    Preserves-bind (prepare_host world spec tools found) _
                                      (kept _
                                        λ s. record { local = refl; bound = refl; chosen = refl })
                                      λ _. Preserves-pure tools)
