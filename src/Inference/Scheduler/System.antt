-- ===== src/Inference/Scheduler/System.antt =====
-- The scheduler with its threads: every hold of the mutex by a client, by `start` and `stop` or by a
-- worker is one step, in any order. The records of what happened are kept beside the state. A worker
-- runs its task and its callback in one step.
use my_tiny_network_library.Base.{
  ℕ, ◌≡◌, Bool, true, List, [], ◌∷◌, ◌++◌, Option, All, if◌then◌else◌, suc,
}
use my_tiny_network_library.Inference.Types.{
  InferenceRequest, InferenceResult, InferenceBackend, MetricsOps,
}
use my_tiny_network_library.Inference.Registry.{ModelRegistry}
use my_tiny_network_library.Inference.Scheduler.{
  Task, Worker, waiting, busy, exited, Scheduler, Admission, refused, admitted, returns, takes,
  init, start, begin_stop, end_stop, admission, submit, next_turn, run_task,
}

pub record System (World Handle Real Callback Metrics : Type 0) : Type 0 where
  pub scheduler : Scheduler Handle Real Callback Metrics
  pub world : World
  pub accepted : List (Task Handle Real Callback)
  pub taken : List (Task Handle Real Callback)
  pub completed : List (Task Handle Real Callback × InferenceResult Real)

-- the task that a decision of `submit` lets in
abbrev pub let_in :
    {Handle Real Callback : Type 0}
    → Admission Handle Real Callback
    → List (Task Handle Real Callback)
let_in (refused result) = []
let_in (admitted task) = task ∷ []

module _ {World Handle Real Callback Metrics : Type 0} (ops : InferenceBackend World Handle Real)
    (sink : MetricsOps Metrics Real) (milliseconds : ℕ → ℕ → Real) where
  -- a call of `submit`
  abbrev pub submitted :
      InferenceRequest Real
      → Option Callback
      → ℕ
      → System World Handle Real Callback Metrics
      → System World Handle Real Callback Metrics
  submitted request completion now s = record s {
    scheduler = (submit sink request completion now s.scheduler).1;
    accepted = s.accepted ++ let_in (admission request completion now s.scheduler);
  }

  -- a call of `start`
  abbrev pub started :
      System World Handle Real Callback Metrics → System World Handle Real Callback Metrics
  started s =
      let (error, scheduler, world) = start ops s.scheduler s.world in
      record s { scheduler = scheduler; world = world }

  -- a worker's task, its callback and its way back to the lock
  abbrev pub finished :
      Task Handle Real Callback
      → ℕ
      → ℕ
      → List (Worker Handle Real Callback)
      → System World Handle Real Callback Metrics
      → System World Handle Real Callback Metrics
  finished task t1 t2 workers s =
      let (result, scheduler, world) =
        run_task ops sink milliseconds task t1 t2 s.scheduler s.world in
      record s {
        scheduler = record scheduler { workers = workers };
        world = world;
        completed = s.completed ++ (task, result) ∷ [];
      }

  pub data Step
      : System World Handle Real Callback Metrics
        → System World Handle Real Callback Metrics
        → Type 0 where
    submits :
        (request : InferenceRequest Real) (completion : Option Callback) (now : ℕ)
        (s : System World Handle Real Callback Metrics)
        → Step s (submitted request completion now s)
    starts : (s : System World Handle Real Callback Metrics) → Step s (started s)
    asks_to_stop :
        (s : System World Handle Real Callback Metrics)
        → Step s (record s { scheduler = begin_stop s.scheduler })
    picks :
        (s : System World Handle Real Callback Metrics)
        (before after : List (Worker Handle Real Callback)) (task : Task Handle Real Callback)
        (rest : Scheduler Handle Real Callback Metrics)
        → s.scheduler.workers ≡ before ++ waiting ∷ after
        → next_turn sink s.scheduler ≡ takes task rest
        → Step s (record s {
          scheduler = record rest { workers = before ++ busy task ∷ after };
          taken = s.taken ++ task ∷ [];
        })
    finishes :
        (s : System World Handle Real Callback Metrics)
        (before after : List (Worker Handle Real Callback)) (task : Task Handle Real Callback)
        (t1 t2 : ℕ)
        → s.scheduler.workers ≡ before ++ busy task ∷ after
        → Step s (finished task t1 t2 (before ++ waiting ∷ after) s)
    leaves :
        (s : System World Handle Real Callback Metrics)
        (before after : List (Worker Handle Real Callback))
        → s.scheduler.workers ≡ before ++ waiting ∷ after
        → next_turn sink s.scheduler ≡ returns
        → Step s
            (record s { scheduler = record s.scheduler { workers = before ++ exited ∷ after } })
    has_stopped :
        (s : System World Handle Real Callback Metrics)
        → s.scheduler.stopping ≡ true
        → All (λ worker. worker ≡ exited) s.scheduler.workers
        → Step s (record s { scheduler = end_stop s.scheduler })

  -- what a new scheduler comes to, over any registry and any state of the backends
  pub data Reachable : System World Handle Real Callback Metrics → Type 0 where
    fresh :
        (registry : ModelRegistry Handle) (worker_count queue_capacity : ℕ)
        (metrics : Option Metrics) (world : World)
        → Reachable (record {
          scheduler = init sink registry worker_count queue_capacity metrics;
          world = world;
          accepted = [];
          taken = [];
          completed = [];
        })
    next : (s t : System World Handle Real Callback Metrics) → Reachable s → Step s t → Reachable t

-- how many tasks of a list pass a test
unfoldable pub count : {A : Type 0} → (A → Bool) → List A → ℕ
count test [] = 0
count test (x ∷ xs) = let rest = count test xs in if test x then suc rest else rest
