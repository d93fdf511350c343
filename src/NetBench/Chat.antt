-- ===== src/NetBench/Chat.antt =====
-- `OllamaChat` of packages/netbench/src/netbench/local_agent.py. What the HTTP client does is a parameter.
-- `_post` calls itself without the field that the server rejects: fuel counts the requests.
pub mod Ends
pub mod Kept
use net_twin.Prelude.{
  ℕ, zero, suc, ◌+◌, String, ◌<>◌, Bool, true, false, not, ◌&&◌, ◌||◌, List, [], ◌∷◌, Option, none,
  some, if◌then◌else◌, leb, ◌==◌, nat_eq, string_eq,
}
use net_twin.Prelude.Text.{first_chars, occurs}
use net_twin.Prelude.Decimal.{show}
use net_twin.Prelude.Result.{Result, ok, err}
use net_twin.Prelude.Action.{Action, pure, raise, lift, ◌>>=◌, ◌>>◌}
use net_twin.Prelude.Json.{
  Json, null, flag, number, text, list, dict, Fields, end, field, JsonFault, get, keep_unless,
  truthy, of_list, or_else, int_of, str, set,
}
use net_twin.NetBench.Clients.{
  Bench, Fault, unavailable, model_timeout, call_failed, bad_shape, out_of_fuel, outside,
}
use net_twin.NetBench.Calls.{Runtime, field_of, is_dict}

pub data HttpFault : Type 0 where
  timed_out : HttpFault
  connect_error http_error : String → HttpFault

-- A response: its body, unless that is no JSON.
pub record Response : Type 0 where
  pub status : ℕ
  pub body : Option Json
  pub text : String

pub record Ollama (W : Type 0) : Type 0 where
  pub model : String
  pub base_url : String
  pub num_ctx : ℕ
  pub timeout : ℕ
  pub http : Fields → Action HttpFault W Response

unfoldable pub has : String → Fields → Bool
has key fs = elim (get key fs) [ none ↦ false | some j ↦ true ]

bad : {A : Type 0} → Result JsonFault A → Result Fault A
bad (ok a) = ok a
bad (err e) = err (bad_shape e)

module _ {W : Type 0} (python : Runtime) (ollama : Ollama W) where
  think_field : Option Bool → Fields
  think_field none = end
  think_field (some b) = field "think" (flag b) end

  unfoldable pub payload : Option Bool → List Json → List Json → Fields
  unfolding think_field
  payload think messages tools = field "model" (text ollama.model) (
      field "messages" (list (of_list messages)) (
        field "tools" (list (of_list tools)) (
          field "stream" (flag false) (
            field "options"
              (dict (field "temperature" (number 0) (field "num_ctx" (number ollama.num_ctx) end)))
              (think_field think)))))

  -- `_error_of`
  unfoldable pub error_of : Json → String
  unfolding field_of
  error_of body =
      let e = field_of "error" body in
      if truthy e then str python.repr e else first_chars 200 (str python.repr body)

  http_fault : HttpFault → Fault
  http_fault timed_out = model_timeout (
      "Ollama did not answer within "
      <> (show ollama.timeout <> ("s (context " <> (show ollama.num_ctx <> ")"))))
  http_fault (connect_error e) =
      unavailable ("cannot reach Ollama at " <> (ollama.base_url <> (": " <> e)))
  http_fault (http_error e) = call_failed ("Ollama dropped the request: " <> e)

  fetched : Result HttpFault Response → Result Fault Response
  unfolding http_fault
  fetched (ok r) = ok r
  fetched (err e) = err (http_fault e)

  fetch : Fields → Action Fault (Bench W) Response
  unfolding fetched
  fetch p s = let (r, w) = ollama.http p s.world in (fetched r, record s { world = w })

  forget_think : Action Fault (Bench W) (Unit {0})
  forget_think s = (ok tt, record s { thinks = none })

  not_json : Response → Fault
  not_json r = unavailable (
      "Ollama at "
      <> (ollama.base_url
          <> (" did not answer JSON (HTTP "
              <> (show r.status <> ("): " <> first_chars 200 r.text)))))

  no_model : Json → Fault
  unfolding error_of
  no_model body = unavailable (
      "Ollama has no model "
      <> (python.repr ollama.model
          <> (" (" <> (error_of body <> ("); run `ollama pull " <> (ollama.model <> "`"))))))

  rejects_think : Fields → Json → Bool
  unfolding error_of
  rejects_think p body = has "think" p && occurs "think" (python.lower (error_of body))

  without_think : Fields → Fields
  without_think p = keep_unless (λ k. k == "think") p

  -- What is done with a body that was read; `retry` is the request without the field.
  settled : Action Fault (Bench W) Json → Fields → ℕ → Json → Action Fault (Bench W) Json
  unfolding forget_think no_model rejects_think
  settled retry p status body =
      if status == 404
      then raise (no_model body)
      else if leb 400 status
      then (if rejects_think p body
          then forget_think >> retry
          else raise (unavailable ("Ollama HTTP " <> (show status <> (": " <> error_of body)))))
      else pure body

  read_body : Action Fault (Bench W) Json → Fields → Response → Action Fault (Bench W) Json
  unfolding settled not_json
  read_body retry p r = elim r.body [
    | none ↦ raise (not_json r)
    | some body ↦ settled retry p r.status body
  ]

  -- `_post`
  unfoldable pub post : ℕ → Fields → Action Fault (Bench W) Json
  unfolding fetch read_body without_think
  post zero p = raise out_of_fuel
  post (suc fuel) p = let retry = post fuel (without_think p) in fetch p >>= read_body retry p

  counted : ℕ → ℕ → ℕ → Action Fault (Bench W) (Unit {0})
  counted n p c s = (
    ok tt,
    record s {
      requests = s.requests + n;
      prompt_tokens = s.prompt_tokens + p;
      completion_tokens = s.completion_tokens + c;
    },
  )

  count_of : String → Json → Result Fault ℕ
  unfolding bad field_of
  count_of key body = bad (int_of (or_else (number 0) (some (field_of key body))))

  -- What the log and the transcript keep of an empty message.
  with_meta : Json → Fields → Fields
  with_meta body m =
      if truthy (field_of "content" (dict m)) || truthy (field_of "tool_calls" (dict m))
      then m
      else set "eval_count" (field_of "eval_count" body)
          (set "done_reason" (field_of "done_reason" body) m)

  message_of : Json → Json → Result Fault Fields
  message_of body (dict m) = ok m
  message_of body j = err (
      unavailable ("Ollama answered without a message: " <> first_chars 200 (str python.repr body)))

  current_think : Action Fault (Bench W) (Option Bool)
  current_think s = (ok s.thinks, s)

  -- `chat`, with `_post` as the transport. Two requests are enough fuel.
  unfoldable pub chat : List Json → List Json → Action Fault (Bench W) Fields
  unfolding current_think message_of counted count_of with_meta
  chat messages tools = do
    think ← current_think
    body ← post 2 (payload think messages tools)
    message ← lift (message_of body (field_of "message" body))
    counted 1 0 0
    p ← lift (count_of "prompt_eval_count" body)
    counted 0 p 0
    c ← lift (count_of "eval_count" body)
    counted 0 0 c
    pure (with_meta body message)
