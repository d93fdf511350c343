-- ===== src/NetBench/Local/Ablation.antt =====
-- A run without the verifier: what the servers' export gate and the verifier alone can change stays as it was.
use net_twin.Prelude.{
  ℕ, ◌≡◌, refl, inl, inr, String, Bool, true, false, not, ◌&&◌, List, ◌∷◌, ◌++◌, map, arith, ◌==◌,
  string_eq, Option-cases,
}
use net_twin.Prelude.Text.{startswith}
use net_twin.Prelude.Dict.{find}
use net_twin.Prelude.Result.{ok, err}
use net_twin.Prelude.Action.{lift, ◌>>=◌, Action-cases}
use net_twin.Prelude.Json.{text, Fields, get, or_else, str}
use net_twin.NetBench.Roles.{Role}
use net_twin.NetBench.Clients.{
  Client, twin, verify, Launch, Bench, Sessions, ToolInfo, call, read_resource, list_tools,
}
use net_twin.NetBench.Clients.Keeps.{
  Keeps, Keeps->>=, Keeps->>=_where, Keeps-pure, Keeps-outside, Keeps-call, All, All-filter,
  All-append,
}
use net_twin.NetBench.Calls.{Runtime, format_result}
use net_twin.NetBench.Chat.{Ollama}
use net_twin.NetBench.Toolset.{
  BoundTool, toolset, export_tool, netverify_prefix, mcp_handler, bound, mcp_tools, topology_tool,
  role_tools, without_verifier,
}
use net_twin.NetBench.Toolset.Offered.{
  verifier_named, export_named, All-filter-true, All-if, All-map,
}
use net_twin.NetBench.Toolset.Kept.{HandlerKeeps}
use net_twin.NetBench.Loop
use net_twin.NetBench.Loop.Kept.{run-Keeps}
use net_twin.NetBench.Local.{
  Runner, RunContext, team, run, launched, launch_of, no_launches, start, launch_role, launch,
  launch_tool, disabled, tools_of, offered, spoken_report,
}

module _ {W V : Type 0} (view : W → V) (python : Runtime) (ollama : Ollama W)
    (http_keeps : (p : Fields) (w : W) → view (ollama.http p w).1 ≡ view w) (sessions : Sessions W)
    (read_keeps : (c : Client) (uri : String) (w : W) → view (sessions.read c uri w).1 ≡ view w)
    (listed_keeps : (c : Client) (w : W) → view (sessions.listed c w).1 ≡ view w)
    (reopen_keeps : (c : Client) (w : W) → view (sessions.reopen c w).1 ≡ view w)
    (call_keeps : (tool : String) (args : Fields) (timeout : ℕ) (w : W)
      → (tool == "export_change") ≡ false
      → view (sessions.call_tool twin tool args timeout w).1 ≡ view w) where
  -- What a tool is left in for makes its handler keep the view.
  Passes : BoundTool W → Type 0
  Passes t =
      (not (t.name == export_tool) && not (startswith t.name netverify_prefix)) ≡ true
      → HandlerKeeps view t

  Passes-topology : Passes (topology_tool python sessions)
  unfolding Passes HandlerKeeps topology_tool read_resource
  Passes-topology h args = Keeps-outside view _ (read_keeps twin _)

  Passes-twin : (info : ToolInfo) → Passes (bound python sessions twin info)
  unfolding Passes HandlerKeeps bound mcp_handler
  Passes-twin info h args =
      Keeps->>= view (call sessions twin info.name args _) _
        (Keeps-call view sessions twin info.name args _ (reopen_keeps twin)
          (λ w. call_keeps info.name args _ w (export_named info.name (ground arith))))
        λ c. Keeps-pure view (ok (format_result python c))

  Passes-verify : (info : ToolInfo) → Passes (bound python sessions verify info)
  unfolding Passes bound
  Passes-verify info h = let bad : ⊥ = ground (arith, verifier_named info.name) in elim bad [ ]

  Keeps-mcp_tools : (c : Client) → Keeps view (mcp_tools python sessions c)
  unfolding mcp_tools list_tools
  Keeps-mcp_tools c =
      Keeps->>= view (list_tools sessions c) _ (Keeps-outside view _ (listed_keeps c))
        λ infos. Keeps-pure view (ok _)

  All-mcp_tools :
      (c : Client)
      → ((info : ToolInfo) → Passes (bound python sessions c info))
      → (s t : Bench W) (ts : List (BoundTool W)) → mcp_tools python sessions c s ≡ (ok ts, t)
      → All Passes ts
  unfolding mcp_tools
  All-mcp_tools c k s t ts h = elim (Action-cases (list_tools sessions c s)) [
    | inl (infos, u, p) ↦
        let given : mcp_tools python sessions c s ≡ (ok (map (bound python sessions c) infos), u) =
          rw (mcp_tools, p) refl in
        let same : map (bound python sessions c) infos ≡ ts = ground (arith, given, h) in
        rw (← same) (All-map Passes (bound python sessions c) infos k)
    | inr (e, u, p) ↦
        let raised : mcp_tools python sessions c s ≡ (err e, u) = rw (mcp_tools, p) refl in
        let bad : ⊥ = ground (arith, raised, h) in elim bad [ ]
  ]

  module _ (runner : Runner) where
    Keeps-launched : (l : Launch) → Keeps view (launched l)
    unfolding Keeps launched
    Keeps-launched l s = refl

    Keeps-no_launches : Keeps view no_launches
    unfolding Keeps no_launches
    Keeps-no_launches s = refl

    module _ (available : List (BoundTool W)) (k : All (HandlerKeeps view) available) where
      Keeps-launch_role :
          (name prompt : String) (role : Role) (off : Bool)
          → Keeps view (launch_role python ollama sessions runner available name prompt role off)
      unfolding launch_role role_tools
      Keeps-launch_role name prompt role true = Keeps-pure view (ok _)
      Keeps-launch_role name prompt role false =
          Keeps->>= view
            (Loop.run python ollama (toolset (role_tools role available) runner.result_cap) _ false
              _ prompt)
            _
            (run-Keeps view python ollama http_keeps (role_tools role available) runner.result_cap
              (All-filter (HandlerKeeps view) _ available k) _ false _ prompt)
            λ r.
              Keeps->>= view (launched (launch_of name prompt r)) _ (Keeps-launched _)
                λ u. Keeps-pure view (ok (spoken_report name r))

      HandlerKeeps-launch_tool :
          (ctx : RunContext)
          → HandlerKeeps view (launch_tool python ollama sessions runner ctx available)
      unfolding HandlerKeeps launch_tool launch
      HandlerKeeps-launch_tool ctx args =
          let name = str python.repr (or_else (text "") (get "subagent_type" args)) in
          elim (Option-cases (find name runner.roles)) [
            | inl gone ↦ rw (launch, gone) (Keeps-pure view (ok _))
            | inr (role, e) ↦
                rw (launch, e)
                  (Keeps->>= view (lift (disabled ctx.use_verifier role)) _ (Keeps-pure view _)
                    λ off. Keeps-launch_role name _ role off)
          ]

      All-tools_of :
          (ctx : RunContext)
          → All (HandlerKeeps view) (tools_of python ollama sessions runner ctx available)
      unfolding tools_of All
      All-tools_of ctx =
          All-if (HandlerKeeps view) (team runner) _ _
            (All-append (HandlerKeeps view) _ _ (All-filter (HandlerKeeps view) _ available k)
              (HandlerKeeps-launch_tool ctx, tt))
            k

    All-offered :
        (ctx : RunContext) (twin_tools verify_tools : List (BoundTool W))
        → ctx.use_verifier ≡ false
        → All Passes twin_tools
        → All Passes verify_tools
        → All (HandlerKeeps view) (
            offered python ollama sessions runner ctx
              (topology_tool python sessions ∷ (twin_tools ++ verify_tools)))
    unfolding offered without_verifier All Passes
    All-offered ctx twin_tools verify_tools off k l =
        rw off
          (All-filter-true (HandlerKeeps view) _ _ (Passes-topology, All-append Passes _ _ k l))

    Keeps-start :
        (ctx : RunContext) (twin_tools verify_tools : List (BoundTool W))
        → ctx.use_verifier ≡ false
        → All Passes twin_tools
        → All Passes verify_tools
        → Keeps view (start python ollama sessions runner ctx twin_tools verify_tools)
    unfolding start
    Keeps-start ctx twin_tools verify_tools off k l =
        run-Keeps view python ollama http_keeps (tools_of python ollama sessions runner ctx _)
          runner.result_cap (All-tools_of _ (All-offered ctx twin_tools verify_tools off k l) ctx)
          runner.max_turns true _ _

    Keeps-run :
        (ctx : RunContext)
        → ctx.use_verifier ≡ false
        → Keeps view (run python ollama sessions runner ctx)
    unfolding run
    Keeps-run ctx off = Keeps->>= view no_launches _ Keeps-no_launches λ u.
        Keeps->>=_where view (All Passes) (mcp_tools python sessions twin)
          (λ ts. mcp_tools python sessions verify >>= start python ollama sessions runner ctx ts)
          (Keeps-mcp_tools twin) (All-mcp_tools twin Passes-twin)
          λ ts k.
            Keeps->>=_where view (All Passes) (mcp_tools python sessions verify)
              (start python ollama sessions runner ctx ts) (Keeps-mcp_tools verify)
              (All-mcp_tools verify Passes-verify) λ vs l. Keeps-start ctx ts vs off k l

    -- A run of the local agent without the verifier leaves every view of the servers' world as it
    -- was which the model's server, the reading of resources, the listing of tools, new sessions
    -- and the calls of twinlab's tools other than export_change leave as it was, whatever the
    -- model answers and with the subagents it launches, also where the run raises.
    pub run-unverified :
        (ctx : RunContext)
        → ctx.use_verifier ≡ false
        → (s : Bench W) → view (run python ollama sessions runner ctx s).1.world ≡ view s.world
    unfolding Keeps
    run-unverified = Keeps-run
