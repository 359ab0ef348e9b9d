-- ===== src/Dispatch/Examples.antt =====
-- threadregular.go and worker.go: the theorems at concrete requests.
use frankenphp.Base.{◌≡◌, refl, true, false, some, List, [], ◌∷◌, codes}
use frankenphp.Base.Int.{pos, ◌+ℤ◌, ◌-ℤ◌}
use frankenphp.Metrics.{
  new_prometheus_metrics, start_worker_request, stop_worker_request, queued_worker_request,
  dequeued_worker_request,
}
use frankenphp.Metrics.Safety.{IsSafe}
use frankenphp.Dispatch.Regular
use frankenphp.Dispatch.Worker
use frankenphp.Dispatch.WorkerLaws.{Balanced, handle_request_balances}

abbrev idle_worker : Worker.Counters
idle_worker = record { queued = pos 0; metrics = new_prometheus_metrics true; rejected = false }

abbrev waits : List Worker.Round
waits =
    record { threads = 1; stopped = false; choice = Regular.scaled }
    ∷ record { threads = 2; stopped = false; choice = Regular.taken }
    ∷ []

no_collectors : IsSafe (new_prometheus_metrics true)
unfolding new_prometheus_metrics
no_collectors = record {
  ready = refl;
  busy = refl;
  crashes = refl;
  restarts = refl;
  time = refl;
  count = refl;
  depth = refl;
}

worker_serves :
    Worker.handle_request (codes "w") 7 4 (false ∷ []) waits idle_worker
    ≡ some (Worker.served, idle_worker)
unfolding Worker.handle_request Worker.wait_in_queue Worker.select Worker.leave
    Worker.is_at_thread_limit new_prometheus_metrics start_worker_request stop_worker_request
    queued_worker_request dequeued_worker_request ◌+ℤ◌ ◌-ℤ◌
worker_serves = refl

handle_request_balances_example : Balanced (codes "w") 7 4 idle_worker Worker.served idle_worker
handle_request_balances_example =
    handle_request_balances (codes "w") 7 4 (false ∷ []) waits idle_worker idle_worker Worker.served
      no_collectors worker_serves
