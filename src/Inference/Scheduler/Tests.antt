-- ===== src/Inference/Scheduler/Tests.antt =====
-- A run of the scheduler with one worker, from `start` to the end of `stop`, and the theorems at it.
use my_tiny_network_library.Base.{
  ℕ, ◌≡◌, ◌≤◌, refl, true, false, [], ◌∷◌, ◌++◌, none, some, codes, pos, length, equal, less, ◌==◌,
}
use my_tiny_network_library.Inference.Types.{
  auto, tensor_rt, InferenceBackend, InferenceRequest, MetricsOps, same_backend, backend_type_name,
}
use my_tiny_network_library.Inference.Registry.{
  ModelRegistry, resolve, resolve_name, has_model, initialize, initialize_all, initialize_one,
  bring_up, brought_up, select, eligible, outranks, any,
}
use my_tiny_network_library.Inference.Mock.{MockBackend, load, warmup, infer, empty_result}
use my_tiny_network_library.Inference.Scheduler.{
  Task, waiting, busy, exited, Scheduler, init, start, launch, begin_stop, end_stop, admit,
  admission, enqueue, submit, next_turn, run_task,
}
use my_tiny_network_library.Inference.Scheduler.System.{
  System, Step, submits, starts, asks_to_stop, picks, finishes, leaves, has_stopped, Reachable,
  fresh, next, count, submitted, started, finished,
}
use my_tiny_network_library.Inference.Scheduler.Inv.{finished_tasks}
use my_tiny_network_library.Inference.Scheduler.Once.{Reachable-queue, Reachable-served}
use my_tiny_network_library.Inference.Scheduler.Stop.{Stops, begin_stop-Stops}

abbrev registry : ModelRegistry ℕ
registry = record {
  default_model = codes "m";
  registrations =
      record {
        config = record {
          name = codes "m";
          version = codes "1";
          path = codes "/m";
          backend = tensor_rt;
          device_id = pos 0;
          max_concurrency = 1;
        };
        backend = some 4;
        priority = pos 0;
        available = false;
        load_error = [];
      }
      ∷ [];
}

abbrev request : InferenceRequest ℕ
request = record {
  request_id = codes "r";
  model_name = codes "default";
  backend = auto;
  confidence_threshold = 25;
  image = record { encoded = none; file_name = []; content_type = [] };
}

-- what the request is queued as
abbrev task : Task ℕ ℕ ℕ
task = record {
  request = record request { model_name = codes "m" };
  completion = some 8;
  backend = 4;
  enqueued_at = 100;
}

abbrev sink : MetricsOps ℕ ℕ
sink = record {
  set_queue_capacity = λ n m. m;
  set_queue_depth = λ n m. n;
  record_completion = λ r m. m;
}

abbrev elapsed : ℕ → ℕ → ℕ
elapsed from until = until

abbrev backend : InferenceBackend MockBackend ℕ ℕ
backend = record {
  load = λ h. load;
  warmup = λ h. warmup;
  infer = λ h. infer (λ digits places. digits) 3;
  healthy = λ h b. b.loaded;
}

-- the scheduler with all that it calls open
runs : System MockBackend ℕ ℕ ℕ ℕ → System MockBackend ℕ ℕ ℕ ℕ
unfolding init start launch begin_stop end_stop admit admission enqueue submit next_turn run_task
    resolve resolve_name has_model initialize initialize_all initialize_one bring_up brought_up
    select eligible outranks any equal less same_backend backend_type_name load warmup infer
    empty_result count
runs = started backend sink elapsed

abbrev s0 : System MockBackend ℕ ℕ ℕ ℕ
s0 = record {
  scheduler = init sink registry 1 2 (some 0);
  world = record { loaded = false };
  accepted = [];
  taken = [];
  completed = [];
}

abbrev s1 : System MockBackend ℕ ℕ ℕ ℕ
s1 = started backend sink elapsed s0

abbrev s2 : System MockBackend ℕ ℕ ℕ ℕ
s2 = submitted backend sink elapsed request (some 8) 100 s1

-- the request went in under the model's own name
queued : s2.scheduler.tasks ≡ task ∷ []
unfolding runs
queued = refl

s2-Reachable : Reachable backend sink elapsed s2
s2-Reachable =
    next s1 s2 (next s0 s1 (fresh registry 1 2 (some 0) (record { loaded = false })) (starts s0))
      (submits request (some 8) 100 s1)

Reachable-queue_example :
    (length s2.scheduler.tasks ≤ s2.scheduler.queue_capacity)
    × (s2.accepted ≡ s2.taken ++ s2.scheduler.tasks)
Reachable-queue_example = Reachable-queue backend sink elapsed s2 s2-Reachable

s2-runs : s2.scheduler.running ≡ true
unfolding runs
s2-runs = refl

-- the worker takes the task
abbrev rest : Scheduler ℕ ℕ ℕ ℕ
rest = record s2.scheduler { tasks = []; metrics = some 0 }

abbrev s3 : System MockBackend ℕ ℕ ℕ ℕ
s3 = record s2 { scheduler = record rest { workers = busy task ∷ [] }; taken = task ∷ [] }

picked : Step backend sink elapsed s2 s3
unfolding runs
picked = picks s2 [] [] task rest refl refl

abbrev s4 : System MockBackend ℕ ℕ ℕ ℕ
s4 = finished backend sink elapsed task 105 112 (waiting ∷ []) s3

served : Step backend sink elapsed s3 s4
unfolding runs
served = finishes s3 [] [] task 105 112 refl

abbrev s5 : System MockBackend ℕ ℕ ℕ ℕ
s5 = record s4 { scheduler = begin_stop s4.scheduler }

abbrev s6 : System MockBackend ℕ ℕ ℕ ℕ
s6 = record s5 { scheduler = record s5.scheduler { workers = exited ∷ [] } }

left : Step backend sink elapsed s5 s6
unfolding runs
left = leaves s5 [] [] refl refl

abbrev s7 : System MockBackend ℕ ℕ ℕ ℕ
s7 = record s6 { scheduler = end_stop s6.scheduler }

ended : Step backend sink elapsed s6 s7
unfolding runs
ended = has_stopped s6 refl (refl, tt)

s7-Reachable : Reachable backend sink elapsed s7
s7-Reachable =
    next s6 s7
      (next s5 s6
        (next s4 s5 (next s3 s4 (next s2 s3 s2-Reachable picked) served) (asks_to_stop s4)) left)
      ended

s7-idle : s7.scheduler.running ≡ false
unfolding runs
s7-idle = refl

Reachable-served_example :
    count (λ t. t.enqueued_at == 100) s7.accepted
    ≡ count (λ t. t.enqueued_at == 100) (finished_tasks s7.completed)
Reachable-served_example =
    Reachable-served backend sink elapsed s7 (λ t. t.enqueued_at == 100) s7-Reachable s7-idle

-- with the task still queued
begin_stop-Stops_example :
    Stops backend sink elapsed (record s2 { scheduler = begin_stop s2.scheduler })
begin_stop-Stops_example = begin_stop-Stops backend sink elapsed s2 s2-runs
