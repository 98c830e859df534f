-- ===== src/Inference/Scheduler/Inv.antt =====
-- The invariant of the scheduler with its threads.
use my_tiny_network_library.Base.{
  ◌≡◌, ◌<◌, ◌≤◌, ◌+◌, Bool, true, false, List, [], ◌∷◌, ◌++◌, All, length,
}
use my_tiny_network_library.Inference.Scheduler.{Task, Worker, waiting, busy, exited, Scheduler}
use my_tiny_network_library.Inference.Scheduler.System.{System, count}

module _ {Handle Real Callback : Type 0} where
  -- the tasks that workers hold
  abbrev pub in_hand : List (Worker Handle Real Callback) → List (Task Handle Real Callback)
  in_hand [] = []
  in_hand (busy task ∷ workers) = task ∷ in_hand workers
  in_hand (waiting ∷ workers) = in_hand workers
  in_hand (exited ∷ workers) = in_hand workers

  abbrev pub finished_tasks :
      {R : Type 0} → List (Task Handle Real Callback × R) → List (Task Handle Real Callback)
  finished_tasks [] = []
  finished_tasks ((task, _) ∷ rest) = task ∷ finished_tasks rest

-- the scheduler's own part
pub record IsSound {Handle Real Callback Metrics : Type 0}
    (s : Scheduler Handle Real Callback Metrics) : Type 0 where
  pub bounded : length s.tasks ≤ s.queue_capacity
  pub idle : s.running ≡ false → (s.workers ≡ []) × (s.tasks ≡ []) × (s.stopping ≡ false)
  pub crew : s.running ≡ true → 0 < length s.workers
  pub closing : All (λ worker. worker ≡ exited → (s.stopping ≡ true) × (s.tasks ≡ [])) s.workers

-- the part about the records kept
pub record IsRecorded {World Handle Real Callback Metrics : Type 0}
    (s : System World Handle Real Callback Metrics) : Type 0 where
  pub order : s.accepted ≡ s.taken ++ s.scheduler.tasks
  pub once :
      (test : Task Handle Real Callback → Bool)
      → count test s.taken
        ≡ count test (in_hand s.scheduler.workers) + count test (finished_tasks s.completed)
