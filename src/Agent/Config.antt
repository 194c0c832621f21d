-- ===== src/Agent/Config.antt =====
-- reference/sdk/src/uenv/sdk/agents.py: the configuration of `PlainAgent`.
use uenv_design.Base.{String, Bool, false, ◌&&◌, ◌||◌, Option, none, some}
use uenv_design.Base.{List, [], ◌∷◌, ◌==◌, string_eq, if◌then◌else◌}
use uenv_design.Base.Dict
use uenv_design.Base.Dict.{Dict}
use uenv_design.Result.{Error, Result, ok, err, value_error}
use uenv_design.Value.{Value, str}

-- `PlainAgent.config`
pub data HistoryPolicy : Type 0 where
  full last_generation : HistoryPolicy

pub record PlainConfig : Type 0 where
  pub history_policy : HistoryPolicy
  pub system_prompt : String

abbrev policy_of : String → Option HistoryPolicy
policy_of s =
    if s == "full" then some full else if s == "last_generation" then some last_generation else none

abbrev bad_config : Error
bad_config = value_error "UNSUPPORTED_PLAIN_AGENT_CONFIGURATION"

abbrev config_of : Option HistoryPolicy → Option Value → Result PlainConfig
config_of (some policy) (some (str prompt)) =
    ok (record { history_policy = policy; system_prompt = prompt })
config_of _ _ = err bad_config

abbrev policy_value : Option Value → Option HistoryPolicy
policy_value (some (str s)) = policy_of s
policy_value _ = none

-- `set(config) != {...}`: a dict has each key once, so two keys that are the two names.
abbrev known_keys : List String → Bool
known_keys (a ∷ b ∷ []) =
    (a == "history_policy" && b == "system_prompt")
    || (a == "system_prompt" && b == "history_policy")
known_keys _ = false

-- `PlainAgent.__init__`
unfoldable pub plain_agent : Dict String Value → Result PlainConfig
plain_agent config =
    if known_keys (Dict.keys config)
    then config_of (policy_value (Dict.lookup "history_policy" config))
        (Dict.lookup "system_prompt" config)
    else err bad_config
