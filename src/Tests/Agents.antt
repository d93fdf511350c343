-- ===== src/Tests/Agents.antt =====
-- Two servers that count what they are asked, a model that asks for an export, one that answers in text, and a
-- server that rejects a field.
use net_twin.Prelude.{
  ℕ, ◌+◌, ◌≡◌, ◌≢◌, refl, String, Bool, false, List, [], ◌∷◌, none, some, string_eq, nat_eq, ◌==◌,
  if◌then◌else◌,
}
use net_twin.Prelude.Text.{partition, strip, lstrip, rstrip, is_space}
use net_twin.Prelude.Result.{ok, err}
use net_twin.Prelude.Json.{
  Json, text, list, dict, Fields, end, field, of_list, get, or_else, truthy, str, int_of,
  keep_unless, set,
}
use net_twin.NetBench.Roles.{server_of}
use net_twin.NetBench.Roles.Names.{tool_name, split_tool_name, server_of-tool_name}
use net_twin.NetBench.Clients.{Client, twin, verify, out_of_fuel, Bench, Sessions, ToolInfo, Reply}
use net_twin.NetBench.Calls.{Runtime, field_of, call_of, text_tool_calls}
use net_twin.NetBench.Chat.{Ollama, payload, has, post, chat}
use net_twin.NetBench.Chat.Ends.{post-Ends}
use net_twin.NetBench.Toolset.{toolset, definitions}
use net_twin.NetBench.Loop
use net_twin.NetBench.Loop.{LoopResult, spoken}
use net_twin.NetBench.Loop.Turns.{Ended, run-Ended}
use net_twin.NetBench.Local
use net_twin.NetBench.Local.{Runner}
use net_twin.NetBench.Runner.{RunContext}
use net_twin.NetBench.Local.Ablation.{run-unverified}

server_of-tool_name_example :
    (server_of (tool_name "twinlab" "snapshot") ≡ ok "twinlab")
    × (split_tool_name (tool_name "twinlab" "snapshot") ≡ ("twinlab", "snapshot"))
unfolding partition
server_of-tool_name_example = server_of-tool_name "twinlab" "snapshot" refl

abbrev python : Runtime
python = record { repr = λ s. s; loads = λ s. none; dumps = λ j. "{}"; lower = λ s. s }

abbrev answering : Json → Ollama ℕ
answering body = record {
  model = "qwen3:14b";
  base_url = "http://localhost:11434";
  num_ctx = 16384;
  timeout = 900;
  http = λ p w. (ok (record { status = 200; body = some body; text = "" }), w);
}

abbrev talker : Ollama ℕ
talker = answering (dict (field "message" (dict (field "content" (text "done") end)) end))

-- Asks for an export on each turn.
abbrev exporter : Ollama ℕ
exporter = answering (
    dict (
      field "message"
        (dict (
          field "tool_calls"
            (list (of_list (call_of "mcp__twinlab__export_change" (dict end) ∷ []))) end))
        end))

abbrev info : String → ToolInfo
info name = record { name = name; description = none; input_schema = end }

abbrev reply : Reply
reply = record { is_error = false; structured = none; content = "ok"; duration = 1 }

-- The world counts the exports and the questions to the verifier.
abbrev counting : Client → String → ℕ → ℕ
counting twin tool n = if tool == "export_change" then n + 1 else n
counting verify tool n = n + 1

abbrev listing : Client → List ToolInfo
listing twin = info "snapshot" ∷ info "export_change" ∷ []
listing verify = info "intent_check" ∷ []

abbrev servers : Sessions ℕ
servers = record {
  call_tool = λ c tool args timeout n. (ok reply, counting c tool n);
  read = λ c uri n. (ok "{}", n);
  listed = λ c n. (ok (listing c), n);
  reopen = λ c n. (ok tt, n);
}

abbrev bench : Bench ℕ
bench = record {
  world = 0;
  twin_calls = [];
  verify_calls = [];
  prompt_tokens = 0;
  completion_tokens = 0;
  requests = 0;
  thinks = some false;
  launches = [];
}

abbrev solo : Runner
solo = record {
  roles = [];
  skill = record { name = "diagnose-solo"; description = ""; body = "Find the fault." };
  max_turns = 2;
  result_cap = 6000;
}

abbrev context : Bool → RunContext
context checked = record {
  scenario_id = "001-x";
  symptom = "h1 is down";
  use_verifier = checked;
  config_name = "";
  trial = 1;
}

other_calls :
    (tool : String) (args : Fields) (timeout n : ℕ)
    → (tool == "export_change") ≡ false
    → counting twin tool n ≡ n
other_calls tool args timeout n h = rw h refl

run-unverified_example : (Local.run python exporter servers solo (context false) bench).1.world ≡ 0
run-unverified_example =
    run-unverified (λ n. n) python exporter (λ p n. refl) servers (λ c uri n. refl) (λ c n. refl)
      (λ c n. refl) other_calls solo (context false) refl bench

abbrev answered : LoopResult
answered = record {
  final_text = "done";
  turns = 1;
  hit_max_turns = false;
  messages =
      spoken "system" "s" ∷ spoken "user" "u" ∷ dict (field "content" (text "done") end) ∷ [];
  text_calls = 0;
  nudges = 0;
}

abbrev asked_once : Bench ℕ
asked_once = record bench { requests = 1 }

talker_test :
    Loop.run python talker (toolset [] 10) 3 false "s" "u" bench ≡ (ok answered, asked_once)
unfolding Loop.run Loop.turns_from spoken chat post payload has field_of get or_else truthy str
    int_of text_tool_calls Loop.calls_in Loop.content_of Loop.unfinished Loop.result_of strip lstrip
    rstrip toolset definitions nat_eq string_eq keep_unless set is_space
talker_test = refl

run-Ended_example : Ended 3 false answered
run-Ended_example =
    run-Ended python talker (toolset [] 10) 3 false "s" "u" bench asked_once answered talker_test

-- Rejects the field that switches thinking off.
abbrev strict : Ollama ℕ
strict = record {
  model = "m";
  base_url = "";
  num_ctx = 1;
  timeout = 1;
  http = λ p w. (
    ok (record { status = 400; body = some (dict (field "error" (text "think") end)); text = "" }),
    w,
  );
}

abbrev with_think : Fields
with_think = field "think" (text "no") end

post-Ends_example :
    (post python strict 3 with_think bench ≡ post python strict 2 with_think bench)
    × ((post python strict 2 with_think bench).0 ≢ err out_of_fuel)
post-Ends_example = post-Ends python strict 1 with_think bench
