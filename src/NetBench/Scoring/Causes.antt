-- ===== src/NetBench/Scoring/Causes.antt =====
-- What the score says of the root cause.
use net_twin.Prelude.{string_eq}
