-- ===== src/Tests/GateTests.antt =====
-- One client at the gate, with the identity for the digest, a unit to a token and a tick to a second.
use codegraph_mcp.Base.{
  Bool, List, Str, Str-discrete, [], arith, compare_digest, ends_with, false, get, get_or, is_ascii,
  nat_key, none, pair_key, refl, some, starts_with, str, str_key, ℕ, ℕ_discrete, ◌∷◌, ◌≡◌,
}
use codegraph_mcp.ClientTokens.{empty_store}
use codegraph_mcp.Gate.{
  Moment, Gate, Request, Settings, Reply, admitted, locked_out, dispatch, authenticate, admit,
  user_of, is_rate_limited, within, bearer, client_key,
}
use codegraph_mcp.Gate.Access.{serve, IsEntitled, dispatch-IsEntitled}

abbrev same : Str → Str
same s = s

abbrev show : ℕ → Str
show n = n ∷ []

abbrev nobody : Str → Bool
nobody s = false

abbrev now : Moment
now = record {
  wall = 70;
  monotonic = 70;
  store_clock = 70;
  sweep_at = 70;
  made_at = 70;
  taken_at = 70;
  stored_capacity = none;
  stored_refill = none;
}

abbrev config : Settings
config = record { auth_token = str "secret"; environment = str "prod" }

abbrev tool_call : Str → Request
tool_call auth = record {
  path = str "/mcp";
  method = str "GET";
  client = some (str "10.0.0.1");
  forwarded_for = [];
  authorization = auth;
}

abbrev gate : List ℕ → Gate
gate failed = record {
  failed_attempts = (str "10.0.0.1", failed) ∷ [];
  keys = record { store = empty_store; refused = [] };
  buckets = record { buckets = []; last_sweep = 0 };
  settings_cached_at = 60;
  settings_shape = (60, 1);
}

abbrev at_gate : Request → Gate → Gate × Reply
at_gate = serve same show nobody 1 1 60 1 now config

-- The shared token is admitted; after five failures in the last minute it is not.
token_run :
    ((at_gate (tool_call (str "Bearer secret")) (gate (11 ∷ []))).1 ≡ admitted none)
    × ((at_gate (tool_call (str "Bearer secret")) (gate (11 ∷ 12 ∷ 13 ∷ 14 ∷ 15 ∷ []))).1
        ≡ locked_out)
    × ((at_gate (tool_call (str "Bearer secret")) (gate (1 ∷ 2 ∷ 3 ∷ 4 ∷ 15 ∷ []))).1
        ≡ admitted none)
unfolding dispatch authenticate admit user_of compare_digest is_ascii is_rate_limited within bearer
    client_key get_or get starts_with ends_with Str-discrete ℕ_discrete
token_run = ground arith

dispatch-IsEntitled_example :
    IsEntitled same show nobody 1 1 60 1 config (tool_call (str "Bearer secret")) empty_store none
unfolding dispatch authenticate admit user_of compare_digest is_ascii is_rate_limited within bearer
    client_key get_or get starts_with ends_with Str-discrete ℕ_discrete
dispatch-IsEntitled_example =
    dispatch-IsEntitled same show nobody 1 1 60 1 now config (tool_call (str "Bearer secret"))
      (gate []) none tt refl
