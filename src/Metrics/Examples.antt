-- ===== src/Metrics/Examples.antt =====
-- metrics.go: the theorem at a run of calls.
use frankenphp.Base.{◌≡◌, true, false, some, List, [], ◌∷◌, codes}
use frankenphp.Metrics.Defs
use frankenphp.Metrics.Safety

-- A worker starts before the collectors are made, and crashes after.
abbrev a_run : List Safety.Call
a_run =
    Safety.start_worker (codes "w")
    ∷ Safety.total_workers
    ∷ Safety.ready_worker (codes "w")
    ∷ Safety.stop_worker (codes "w") Defs.crash
    ∷ []

calls_safe_example :
    (m : Defs.Metrics) × (Safety.calls a_run (Defs.new_prometheus_metrics true) ≡ some m)
    × ((k : Defs.Collector) → (Defs.shutdown m).registered k ≡ false)
calls_safe_example = Safety.calls_safe true a_run
