-- ===== src/NetBench/Harness/Answers.antt =====
-- What packages/netbench/src/netbench/harness.py reads of a tool's answer.
use net_twin.Prelude.{String, Bool, List, [], ◌∷◌, none, some, string_eq}
use net_twin.Prelude.Result.{Result, ok, err}
use net_twin.Prelude.Json.{
  Json, text, Fields, JsonFault, not_text, missing, get, truthy, as_dict, as_list,
}
use net_twin.NetBench.Clients.{Fault, bad_shape}

shape : {A : Type 0} → Result JsonFault A → Result Fault A
shape (ok a) = ok a
shape (err e) = err (bad_shape e)

-- `d[key]`
at : String → Fields → Result JsonFault Json
at key d = elim (get key d) [ none ↦ err (missing key) | some j ↦ ok j ]

as_text : Json → Result JsonFault String
as_text (text s) = ok s
as_text j = err not_text

unfoldable pub bool_at : String → Fields → Result Fault Bool
unfolding shape at
bool_at key d = elim (at key d) [ ok j ↦ ok (truthy j) | err e ↦ err (bad_shape e) ]

text_at : String → Fields → Result JsonFault String
unfolding at as_text
text_at key d = elim (at key d) [ ok j ↦ as_text j | err e ↦ err e ]

unfoldable pub id_at : String → Fields → Result Fault String
unfolding shape text_at
id_at key d = shape (text_at key d)

probe_of : Fields → Result JsonFault (String × Bool)
unfolding text_at at
probe_of d = elim (text_at "rule_id" d) [
  | err e ↦ err e
  | ok rule ↦ elim (at "ok" d) [ err e ↦ err e | ok j ↦ ok (rule, truthy j) ]
]

probe_in : Json → Result JsonFault (String × Bool)
unfolding probe_of
probe_in j = elim (as_dict j) [ err e ↦ err e | ok d ↦ probe_of d ]

probes_in : List Json → Result JsonFault (List (String × Bool))
unfolding probe_in
probes_in [] = ok []
probes_in (j ∷ js) = elim (probe_in j) [
  | err e ↦ err e
  | ok p ↦ elim (probes_in js) [ err e ↦ err e | ok ps ↦ ok (p ∷ ps) ]
]

listed_probes : Json → Result JsonFault (List (String × Bool))
unfolding probes_in
listed_probes j = elim (as_list j) [ err e ↦ err e | ok js ↦ probes_in js ]

-- `d["probes"]`, with the id of the rule and whether it was ok
unfoldable pub probes_at : Fields → Result Fault (List (String × Bool))
unfolding shape at listed_probes
probes_at d = shape (elim (at "probes" d) [ err e ↦ err e | ok j ↦ listed_probes j ])
