-- ===== src/Tests/RpcTests.antt =====
-- Requests over JSON-RPC to one tool that always fails and one prompt.
use codegraph_mcp.Base.{
  Call, Dict, Option, Str, Str-discrete, [], contains, false, get, nat_key, none, pair_key, raised,
  refl, returned, some, starts_with, str, str_key, true, ℕ, ℕ_discrete, ◌∷◌, ◌≡◌,
}
use codegraph_mcp.JsonRpc.{
  absent, truthy_other, given, Arguments, Field, text, unhashable, scalar, fields, Prompt, Rpc,
  call, tool_failure, unknown_tool, messages, unhandled, result, rendered, run_tool, call_tool,
  get_prompt, with_fields, dispatch, handle_mcp,
}

abbrev failing : Dict Str (Option ℕ → Call ℕ)
failing = (str "broken", λ a. raised (str "boom")) ∷ []

abbrev review : Dict Str (Prompt ℕ)
review =
    (
      str "review",
      record { has_text = true; render = λ a. elim a [ none ↦ returned 0 | some n ↦ returned n ] },
    )
    ∷ []

abbrev request : Str → Field → Arguments ℕ → Rpc ℕ
request method name a = record {
  id = some 7;
  method = method;
  params = fields (record { protocol_version = scalar; name = name; arguments = a });
}

failure_run :
    handle_mcp failing review
      (str "text/event-stream")
      (call (request (str "tools/call") (text (str "broken")) absent))
    ≡ result true 7 (tool_failure (str "boom"))
unfolding handle_mcp dispatch with_fields call_tool run_tool contains starts_with get Str-discrete
    ℕ_discrete
failure_run = refl

unknown_run :
    handle_mcp failing review [] (call (request (str "tools/call") (text (str "absent")) absent))
    ≡ result false 7 (unknown_tool (text (str "absent")))
unfolding handle_mcp dispatch with_fields call_tool run_tool contains starts_with get Str-discrete
    ℕ_discrete
unknown_run = refl

-- A name that cannot be hashed, and arguments of a prompt that are no object, end in an exception.
unhandled_run :
    (handle_mcp failing review [] (call (request (str "tools/call") unhashable absent)) ≡ unhandled)
    × (handle_mcp failing review []
          (call (request (str "prompts/get") (text (str "review")) truthy_other))
        ≡ unhandled)
unfolding handle_mcp dispatch with_fields call_tool run_tool get_prompt rendered contains
    starts_with get Str-discrete ℕ_discrete
unhandled_run = (refl, refl)

abbrev to_prompt : Rpc ℕ
to_prompt = request (str "prompts/get") (text (str "review")) (given 5)

prompt_run : handle_mcp failing review (str "*/*") (call to_prompt) ≡ result false 7 (messages 5)
unfolding handle_mcp dispatch with_fields get_prompt rendered contains starts_with get Str-discrete
    ℕ_discrete
prompt_run = refl
