-- ===== src/NetBench/Toolset/Offered.antt =====
-- The names under which tools are offered, and lists of tools that a test leaves in.
use net_twin.Prelude.{
  ap, ◌≡◌, refl, sym, ◌∙◌, inl, inr, String, ◌<>◌, Bool, true, false, List, [], ◌∷◌, map, arith,
  if◌then◌else◌, ◌==◌, string_eq, Bool-cases,
}
use package.text.Mathlib.TextLemmas.{cons-append, append_assoc}
use net_twin.Prelude.Text.{startswith}
use net_twin.Prelude.Lists.{filter}
use net_twin.NetBench.Roles.Names.{tool_name}
use net_twin.NetBench.Clients.{twin, verify, name_of}
use net_twin.NetBench.Clients.Keeps.{All}
use net_twin.NetBench.Toolset.{export_tool, netverify_prefix}

startswith-append : (p s : String) → startswith (p <> s) p ≡ true
startswith-append String.[] s = refl
startswith-append (String.◌∷◌ c p) s = rw cons-append (ground (arith, startswith-append p s))

whole : (server tool : String) → tool_name server tool ≡ ("mcp__" <> (server <> "__")) <> tool
unfolding tool_name
whole server tool =
    ap (λ x. "mcp__" <> x) (sym (append_assoc server "__" tool))
    ∙ sym (append_assoc "mcp__" (server <> "__") tool)

pub verifier_named :
    (tool : String) → startswith (tool_name (name_of verify) tool) netverify_prefix ≡ true
unfolding name_of
verifier_named tool = rw (whole "netverify" tool) (startswith-append netverify_prefix tool)

export_clash :
    (tool : String) → tool ≡ "export_change" → (tool_name "twinlab" tool == export_tool) ≡ false → ⊥
unfolding tool_name
export_clash tool same h =
    let h' : (tool_name "twinlab" "export_change" == export_tool) ≡ false = rw same at h in
    ground arith

pub export_named :
    (tool : String)
    → (tool_name (name_of twin) tool == export_tool) ≡ false
    → (tool == "export_change") ≡ false
unfolding tool_name name_of
export_named tool h = elim (Bool-cases (tool == "export_change")) [
  | inl is_export ↦ ground (arith, export_clash tool (ground (arith, is_export)) h)
  | inr other ↦ other
]

pub All-filter-true :
    {A : Type 0} (P : A → Type 0) (p : A → Bool) (xs : List A)
    → All (λ x. p x ≡ true → P x) xs
    → All P (filter p xs)
unfolding All filter
All-filter-true P p [] h = tt
All-filter-true P p (x ∷ xs) h = elim (Bool-cases (p x)) [
  | inl holds ↦ rw holds (h.0 holds, All-filter-true P p xs h.1)
  | inr fails ↦ rw fails (All-filter-true P p xs h.1)
]

pub All-if :
    {A : Type 0} (P : A → Type 0) (b : Bool) (xs ys : List A)
    → All P xs
    → All P ys
    → All P (if b then xs else ys)
All-if P true xs ys h k = h
All-if P false xs ys h k = k

pub All-map :
    {A B : Type 0} (P : B → Type 0) (f : A → B) (xs : List A)
    → ((a : A) → P (f a))
    → All P (map f xs)
unfolding All
All-map P f [] h = tt
All-map P f (x ∷ xs) h = (h x, All-map P f xs h)
