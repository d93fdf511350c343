-- ===== src/NetBench/Timeline/Markdown.antt =====
-- `render_markdown` of packages/netbench/src/netbench/timeline.py.
use Prim.Native.Nat.{◌*◌, ◌/◌, ◌%◌}
use net_twin.Prelude.{
  ℕ, zero, suc, ◌-◌, String, ◌<>◌, List, [], ◌∷◌, ◌++◌, Option, none, some, if◌then◌else◌,
  string_eq, nat_eq, ltb,
}
use net_twin.Prelude.Text.{join}
use net_twin.Prelude.Decimal.{show}
use net_twin.Prelude.Int.{ℤ, pos, negsuc}
use net_twin.Prelude.Result.{Result, ok, ◌>>=◌}
use net_twin.Prelude.Json.{dict, Fields, end, field, JsonFault, get, dict_or_empty, str}
use net_twin.NetBench.Calls.{Runtime, field_of}
use net_twin.NetBench.Timeline.{Step, Timeline}
use net_twin.NetBench.Timeline.Describe.{clip, describe, text_at}

abbrev micros : ℕ
micros = 1000000

two_digits : ℕ → String
two_digits n = if ltb n 10 then "0" <> show n else show n

show_int : ℤ → String
show_int (pos n) = show n
show_int (negsuc n) = "-" <> show (suc n)

-- Whole minutes, and the whole seconds that are left, of a time rounded down.
clock : ℤ → ℤ × ℕ
clock (pos n) = (pos (n / (60 * micros)), (n % (60 * micros)) / micros)
clock (negsuc n) = (negsuc (n / (60 * micros)), (60 * micros - 1 - n % (60 * micros)) / micros)

-- Whole seconds, towards zero.
seconds_of : ℤ → ℤ
seconds_of (pos n) = pos (n / micros)
seconds_of (negsuc n) = negative (suc n / micros)
  where
    negative : ℕ → ℤ
    negative zero = pos 0
    negative (suc k) = negsuc k

-- `divmod(seconds, 60)`
minutes_of : ℤ → ℤ × ℕ
minutes_of (pos n) = (pos (n / 60), n % 60)
minutes_of (negsuc n) = (negsuc (n / 60), 59 - n % 60)

module _ (python : Runtime) where
  row_of : Step → Result JsonFault String
  unfolding clock two_digits show_int describe
  row_of s = do
    said ← describe python s
    ok (
        "| +"
        <> (show_int (clock s.at).0
            <> (":"
                <> (two_digits (clock s.at).1
                    <> (" | " <> (s.actor <> (" | " <> (said <> " |"))))))))

  rows_of : List Step → Result JsonFault (List String)
  unfolding row_of
  rows_of [] = ok []
  rows_of (s ∷ ss) = do r ← row_of s; rs ← rows_of ss; ok (r ∷ rs)

  cause_lines : Fields → List String
  unfolding clip
  cause_lines end = []
  cause_lines (field k j d) =
      let rc = dict (field k j d) in
      ("Reported root cause: **"
        <> (str python.repr (field_of "node" rc)
            <> (" "
                <> (str python.repr (field_of "component" rc)
                    <> ("**. " <> clip (text_at python "summary" rc) 300)))))
      ∷ ""
      ∷ []

  cause_in : Option Fields → Result JsonFault Fields
  cause_in none = ok end
  cause_in (some d) = dict_or_empty (get "root_cause" d)

  -- `render_markdown`
  unfoldable pub render_markdown : Timeline → String → Result JsonFault String
  unfolding rows_of cause_in cause_lines seconds_of minutes_of two_digits show_int
  render_markdown timeline title = do
    rows ← rows_of timeline.steps
    rc ← cause_in timeline.report
    let clocked = minutes_of (seconds_of timeline.duration)
    ok (
        join "\n" (
          ("### " <> title)
          ∷ ""
          ∷ "| Time | Agent | Step |"
          ∷ "|---|---|---|"
          ∷ (rows
              ++ ""
                ∷ (cause_lines rc
                    ++ ("Wall clock "
                        <> (show_int clocked.0 <> (" min " <> (two_digits clocked.1 <> " s."))))
                      ∷ [])))
        <> "\n")
