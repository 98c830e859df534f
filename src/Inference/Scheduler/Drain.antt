-- ===== src/Inference/Scheduler/Drain.antt =====
-- The invariant along the steps of the scheduler with its threads.
use my_tiny_network_library.Base.{
  ℕ, ◌≡◌, ◌<◌, true, List, [], ◌∷◌, ◌++◌, Option, All, All-map, length, length-append, arith, refl,
  sym, ap, subst, ◌⊎◌, inl, inr, Bool-cases,
}
use my_tiny_network_library.Inference.Types.{InferenceBackend, MetricsOps}
use my_tiny_network_library.Inference.Scheduler.{
  Task, Worker, waiting, busy, exited, Scheduler, begin_stop, end_stop, run_task,
}
use my_tiny_network_library.Inference.Scheduler.System.{
  System, Step, submits, starts, asks_to_stop, picks, finishes, leaves, has_stopped, Reachable,
  fresh, next,
}
use my_tiny_network_library.Inference.Scheduler.Inv.{IsSound}
use my_tiny_network_library.Inference.Scheduler.Moves.{
  workers-All, init-IsSound, submit-IsSound, start-IsSound, next_turn-takes, next_turn-returns,
}

module _ {Handle Real Callback Metrics : Type 0} where
  pub begin_stop-cases :
      (s : Scheduler Handle Real Callback Metrics)
      → (begin_stop s ≡ s) ⊎ ((s.running ≡ true) × (begin_stop s ≡ record s { stopping = true }))
  unfolding begin_stop
  begin_stop-cases s = ground arith

  begin_stop-IsSound :
      (s : Scheduler Handle Real Callback Metrics) → IsSound s → IsSound (begin_stop s)
  begin_stop-IsSound s h = elim (begin_stop-cases s) [
    | inl e ↦ subst IsSound (sym e) h
    | inr (runs, e) ↦ subst IsSound (sym e) (record {
      bounded = h.bounded;
      idle = λ k. cc;
      crew = h.crew;
      closing = All-map _ _ (λ w k e. (refl, (k e).1)) s.workers h.closing;
    })
  ]

  -- with a worker there is, the scheduler runs
  worker-runs :
      (s : Scheduler Handle Real Callback Metrics)
      (before after : List (Worker Handle Real Callback)) (w : Worker Handle Real Callback)
      → IsSound s
      → s.workers ≡ before ++ w ∷ after
      → s.running ≡ true
  worker-runs s before after w h e = elim (Bool-cases s.running) [
    | inl runs ↦ runs
    | inr idle ↦
        absurd
          (omega (arith, length-append before (w ∷ after), ap length e, ap length (h.idle idle).0))
  ]

  picked-IsSound :
      (s rest : Scheduler Handle Real Callback Metrics) (task : Task Handle Real Callback)
      (before after : List (Worker Handle Real Callback))
      → IsSound s
      → s.workers ≡ before ++ waiting ∷ after
      → s.tasks ≡ task ∷ rest.tasks
      → rest.running ≡ s.running
      → rest.queue_capacity ≡ s.queue_capacity
      → IsSound (record rest { workers = before ++ busy task ∷ after })
  picked-IsSound s rest task before after h e front runs capacity = record {
    bounded = omega (arith, h.bounded, ap length front, capacity);
    idle = λ no. absurd (cc (worker-runs s before after waiting h e));
    crew = λ yes. omega (arith, length-append before (busy task ∷ after));
    closing =
        workers-All _ before after waiting (busy task) s.workers e
          (All-map _ _ (λ w k x. absurd (cc ((k x).1))) s.workers h.closing) (λ no. cc);
  }

  finished-IsSound :
      (s : Scheduler Handle Real Callback Metrics) (task : Task Handle Real Callback)
      (metrics : Option Metrics) (before after : List (Worker Handle Real Callback))
      → IsSound s
      → s.workers ≡ before ++ busy task ∷ after
      → IsSound (record s { metrics = metrics; workers = before ++ waiting ∷ after })
  finished-IsSound s task metrics before after h e = record {
    bounded = h.bounded;
    idle = λ no. absurd (cc (worker-runs s before after (busy task) h e));
    crew = λ yes. omega (arith, length-append before (waiting ∷ after));
    closing = workers-All _ before after (busy task) waiting s.workers e h.closing (λ no. cc);
  }

  left-IsSound :
      (s : Scheduler Handle Real Callback Metrics)
      (before after : List (Worker Handle Real Callback))
      → IsSound s
      → s.workers ≡ before ++ waiting ∷ after
      → s.tasks ≡ []
      → s.stopping ≡ true
      → IsSound (record s { workers = before ++ exited ∷ after })
  left-IsSound s before after h e nothing stops = record {
    bounded = h.bounded;
    idle = λ no. absurd (cc (worker-runs s before after waiting h e));
    crew = λ yes. omega (arith, length-append before (exited ∷ after));
    closing =
        workers-All _ before after waiting exited s.workers e h.closing (λ _. (stops, nothing));
  }

  -- when every worker has returned, nothing is queued
  joined-nothing :
      (s : Scheduler Handle Real Callback Metrics)
      → IsSound s
      → s.stopping ≡ true
      → All (λ worker. worker ≡ exited) s.workers
      → s.tasks ≡ []
  joined-nothing s h stops joined = go s.workers h.closing joined crew
    where
      crew : 0 < length s.workers
      crew = elim (Bool-cases s.running) [
        | inl runs ↦ h.crew runs
        | inr idle ↦ absurd (cc ((h.idle idle).2))
      ]

      go :
          (ws : List (Worker Handle Real Callback))
          → All (λ worker. worker ≡ exited → (s.stopping ≡ true) × (s.tasks ≡ [])) ws
          → All (λ worker. worker ≡ exited) ws
          → 0 < length ws
          → s.tasks ≡ []
      go [] c j k = absurd (omega arith)
      go (w ∷ ws) c j k = (c.0 j.0).1

  end_stop-IsSound :
      (s : Scheduler Handle Real Callback Metrics) → IsSound s → s.tasks ≡ [] → IsSound (end_stop s)
  unfolding end_stop
  end_stop-IsSound s h nothing = record {
    bounded = h.bounded;
    idle = λ _. (refl, nothing, refl);
    crew = λ no. cc;
    closing = tt;
  }

module _ {World Handle Real Callback Metrics : Type 0} (ops : InferenceBackend World Handle Real)
    (sink : MetricsOps Metrics Real) (milliseconds : ℕ → ℕ → Real) where
  Step-IsSound :
      (s t : System World Handle Real Callback Metrics)
      → Step ops sink milliseconds s t
      → IsSound s.scheduler
      → IsSound t.scheduler
  unfolding run_task
  Step-IsSound s t (submits request completion now _) h =
      submit-IsSound sink request completion now s.scheduler h
  Step-IsSound s t (starts _) h = start-IsSound ops s.scheduler s.world h
  Step-IsSound s t (asks_to_stop _) h = begin_stop-IsSound s.scheduler h
  Step-IsSound s t (picks _ before after task rest e turn) h =
      let (front, runs, stops, capacity) = next_turn-takes sink s.scheduler rest task turn in
      picked-IsSound s.scheduler rest task before after h e front runs capacity
  Step-IsSound s t (finishes _ before after task t1 t2 e) h =
      finished-IsSound s.scheduler task _ before after h e
  Step-IsSound s t (leaves _ before after e turn) h =
      let (nothing, stops) = next_turn-returns sink s.scheduler turn in
      left-IsSound s.scheduler before after h e nothing stops
  Step-IsSound s t (has_stopped _ stops joined) h =
      end_stop-IsSound s.scheduler h (joined-nothing s.scheduler h stops joined)

  pub Reachable-IsSound :
      (s : System World Handle Real Callback Metrics)
      → Reachable ops sink milliseconds s
      → IsSound s.scheduler
  Reachable-IsSound s (fresh registry n capacity metrics world) =
      init-IsSound sink registry n capacity metrics
  Reachable-IsSound t (next s _ r step) = Step-IsSound s t step (Reachable-IsSound s r)
