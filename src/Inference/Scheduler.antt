-- ===== src/Inference/Scheduler.antt =====
-- src/inference/InferenceScheduler.h and InferenceScheduler.cc: the bounded queue and its workers.
-- A function is what happens under one hold of the mutex. The registry pointer is taken to be
-- non-null; the clock's readings are arguments.
pub mod System
pub mod Inv
pub mod Moves
pub mod Drain
pub mod Counts
pub mod Once
pub mod Stop
mod Tests
use my_tiny_network_library.Base.{
  ℕ, Bool, true, false, not, ◌||◌, ◌==◌, List, [], ◌∷◌, ◌++◌, Option, none, some, if◌then◌else◌,
  Bytes, codes, leb, length, replicate, is_some,
}
use my_tiny_network_library.Inference.Types.{
  InferenceRequest, InferenceResult, InferenceBackend, MetricsOps, ModelConfig,
}
use my_tiny_network_library.Inference.Registry.{ModelRegistry, has_model, resolve, initialize, add}
use my_tiny_network_library.Inference.Registry

pub data SubmitResult : Type 0 where
  accepted queue_full stopped backend_unavailable model_unavailable : SubmitResult

pub record Task (Handle Real Callback : Type 0) : Type 0 where
  pub request : InferenceRequest Real
  pub completion : Option Callback
  pub backend : Handle
  pub enqueued_at : ℕ

-- A thread of `workers_`: at the wait, with a task outside the lock, or returned.
pub data Worker (Handle Real Callback : Type 0) : Type 0 where
  waiting : Worker Handle Real Callback
  busy : Task Handle Real Callback → Worker Handle Real Callback
  exited : Worker Handle Real Callback

pub record Scheduler (Handle Real Callback Metrics : Type 0) : Type 0 where
  pub registry : ModelRegistry Handle
  pub metrics : Option Metrics
  pub worker_count : ℕ
  pub queue_capacity : ℕ
  pub tasks : List (Task Handle Real Callback)
  pub workers : List (Worker Handle Real Callback)
  pub running : Bool
  pub stopping : Bool

-- What `submit` decides about a request, before it changes anything.
pub data Admission (Handle Real Callback : Type 0) : Type 0 where
  refused : SubmitResult → Admission Handle Real Callback
  admitted : Task Handle Real Callback → Admission Handle Real Callback

-- What the predicate of the wait and the two lines behind it come to.
pub data Turn (Handle Real Callback Metrics : Type 0) : Type 0 where
  waits : Turn Handle Real Callback Metrics
  returns : Turn Handle Real Callback Metrics
  takes :
      Task Handle Real Callback
      → Scheduler Handle Real Callback Metrics
      → Turn Handle Real Callback Metrics

-- `if (metrics_) metrics_->…`
abbrev on_metrics : {Metrics : Type 0} → (Metrics → Metrics) → Option Metrics → Option Metrics
on_metrics f none = none
on_metrics f (some m) = some (f m)

module _ {Handle Real Callback Metrics : Type 0} where
  -- the threads begin at the wait
  unfoldable pub launch :
      ModelRegistry Handle
      → Scheduler Handle Real Callback Metrics
      → Scheduler Handle Real Callback Metrics
  launch registry s = record s {
    registry = registry;
    stopping = false;
    running = true;
    workers = s.workers ++ replicate s.worker_count waiting;
  }

  -- the first lines of `stop`
  unfoldable pub begin_stop :
      Scheduler Handle Real Callback Metrics → Scheduler Handle Real Callback Metrics
  begin_stop s = if s.running then record s { stopping = true } else s

  -- what `stop` does when every worker is joined
  unfoldable pub end_stop :
      Scheduler Handle Real Callback Metrics → Scheduler Handle Real Callback Metrics
  end_stop s = record s { workers = []; running = false; stopping = false }

  -- with the name and the backend that `resolve` returned
  unfoldable pub admit :
      InferenceRequest Real
      → Option Callback
      → ℕ
      → Bytes × Option Handle
      → Scheduler Handle Real Callback Metrics
      → Admission Handle Real Callback
  admit request completion now (name, none) s = refused backend_unavailable
  admit request completion now (name, some backend) s =
      if leb s.queue_capacity (length s.tasks)
      then refused queue_full
      else admitted (record {
        request = record request { model_name = name };
        completion = completion;
        backend = backend;
        enqueued_at = now;
      })

  unfoldable pub admission :
      InferenceRequest Real
      → Option Callback
      → ℕ
      → Scheduler Handle Real Callback Metrics
      → Admission Handle Real Callback
  admission request completion now s =
      if not s.running || s.stopping
      then refused stopped
      else if not (has_model s.registry request.model_name)
      then refused model_unavailable
      else admit request completion now (resolve s.registry request.model_name request.backend) s

module _ {Handle Real Callback Metrics : Type 0} (sink : MetricsOps Metrics Real) where
  -- the second constructor
  unfoldable pub init :
      ModelRegistry Handle → ℕ → ℕ → Option Metrics → Scheduler Handle Real Callback Metrics
  init registry worker_count queue_capacity metrics = record {
    registry = registry;
    metrics = on_metrics (sink.set_queue_capacity queue_capacity) metrics;
    worker_count = worker_count;
    queue_capacity = queue_capacity;
    tasks = [];
    workers = [];
    running = false;
    stopping = false;
  }

  unfoldable pub enqueue :
      Task Handle Real Callback
      → Scheduler Handle Real Callback Metrics
      → Scheduler Handle Real Callback Metrics
  enqueue task s =
      let tasks = s.tasks ++ task ∷ [] in
      record s {
        tasks = tasks;
        metrics = on_metrics (sink.set_queue_depth (length tasks)) s.metrics;
      }

  unfoldable pub submit :
      InferenceRequest Real
      → Option Callback
      → ℕ
      → Scheduler Handle Real Callback Metrics
      → SubmitResult × Scheduler Handle Real Callback Metrics
  submit request completion now s = elim (admission request completion now s) [
    | refused result ↦ (result, s)
    | admitted task ↦ (accepted, enqueue task s)
  ]

  -- a worker that has the lock and looks at the queue
  unfoldable pub next_turn :
      Scheduler Handle Real Callback Metrics → Turn Handle Real Callback Metrics
  next_turn s = elim s.tasks [
    | [] ↦ if s.stopping then returns else waits
    | task ∷ tasks ↦ takes task (record s {
      tasks = tasks;
      metrics = on_metrics (sink.set_queue_depth (length tasks)) s.metrics;
    })
  ]

module _ {World Handle Real Callback Metrics : Type 0}
    (ops : InferenceBackend World Handle Real) where
  -- the text of the error, or `none` for true
  unfoldable pub start :
      Scheduler Handle Real Callback Metrics
      → World
      → Option Bytes × Scheduler Handle Real Callback Metrics × World
  start s w =
      let (error, registry, w') = initialize ops s.registry w in
      if s.running
      then (none, s, w)
      else if s.worker_count == 0 || s.queue_capacity == 0
      then (some (codes "scheduler requires a backend, workers, and queue capacity"), s, w)
      else if is_some error
      then (error, record s { registry = registry }, w')
      else (none, launch registry s, w')

module _ {World Handle Real Callback Metrics : Type 0} (ops : InferenceBackend World Handle Real)
    (sink : MetricsOps Metrics Real) (milliseconds : ℕ → ℕ → Real) where
  -- the rest of the loop's body, with the times read before and after the inference
  unfoldable pub run_task :
      Task Handle Real Callback
      → ℕ
      → ℕ
      → Scheduler Handle Real Callback Metrics
      → World
      → InferenceResult Real × Scheduler Handle Real Callback Metrics × World
  run_task task started ended s w =
      let (raw, w') = ops.infer task.backend task.request w in
      let result = record raw {
        latency = record raw.latency {
          queue_ms = milliseconds task.enqueued_at started;
          total_ms = milliseconds task.enqueued_at ended;
        };
      } in
      (result, record s { metrics = on_metrics (sink.record_completion result) s.metrics }, w')
