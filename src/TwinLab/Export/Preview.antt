-- ===== src/TwinLab/Export/Preview.antt =====
-- What the operator is shown of an export: `preview` of packages/twinlab/src/twinlab/export.py.
use net_twin.Prelude.{String, ◌<>◌, List, [], ◌∷◌, map, if◌then◌else◌, ltb, contains, string_eq}
use net_twin.Prelude.Text.{join, length, first_chars, size}
use net_twin.Prelude.Decimal.{show}
use net_twin.Prelude.Sort.{le_text, sort}
use net_twin.Core.Executor.{take}
use net_twin.Core.Models.{ChangeResult}
use net_twin.TwinLab.Export.{ExportBundle, layer_name, render_patch}

distinct : List String → List String
distinct [] = []
distinct (x ∷ xs) = let rest = distinct xs in if contains rest x then rest else x ∷ rest

-- `ExportBundle.nodes`
unfoldable pub nodes_of : ExportBundle → List String
unfolding distinct
nodes_of b = sort le_text (distinct (map (λ (c : ChangeResult). c.node) b.changes))

header_of : ExportBundle → String
unfolding nodes_of
header_of b =
    let rc = b.root_cause in
    join "" (
      "Export verified change "
      ∷ b.export_id
      ∷ " to production?\nRoot cause: "
      ∷ rc.component
      ∷ " on "
      ∷ rc.node
      ∷ " ("
      ∷ layer_name rc.layer
      ∷ "): "
      ∷ rc.summary
      ∷ "\nNodes touched: "
      ∷ join ", " (nodes_of b)
      ∷ "; changes: "
      ∷ show (size b.changes)
      ∷ "; verification: "
      ∷ show (size b.verification.rules)
      ∷ " rules passed, snapshot "
      ∷ take 12 b.verification.snapshot_id
      ∷ "\n"
      ∷ [])

clipped : String → String
clipped patch =
    if ltb 1500 (length patch) then first_chars 1500 patch <> "\n... (truncated)" else patch

unfoldable pub preview : ExportBundle → String
unfolding header_of clipped
preview b = header_of b <> ("\n" <> clipped (render_patch b))
