-- ===== src/Inference/Scheduler/Stop.antt =====
-- A scheduler that is asked to stop comes to its end: the workers alone can take it there.
use my_tiny_network_library.Base.{
  ℕ, ◌≡◌, ◌<◌, ◌+◌, ◌*◌, true, false, List, [], ◌∷◌, ◌++◌, All, zero, suc, length, arith, refl, ap,
  ◌∙◌, ◌⊎◌, inl, inr,
}
use my_tiny_network_library.Inference.Types.{InferenceBackend, MetricsOps}
use my_tiny_network_library.Inference.Scheduler.{
  Task, Worker, waiting, busy, exited, Scheduler, Turn, takes, returns, waits, begin_stop, end_stop,
  next_turn, run_task,
}
use my_tiny_network_library.Inference.Scheduler.System.{
  System, Step, picks, finishes, leaves, has_stopped, finished,
}
use my_tiny_network_library.Inference.Scheduler.Moves.{next_turn-takes}

-- What the workers still have to do.
weight : {Handle Real Callback : Type 0} → List (Worker Handle Real Callback) → ℕ
weight [] = 0
weight (waiting ∷ workers) = 1 + weight workers
weight (busy task ∷ workers) = 2 + weight workers
weight (exited ∷ workers) = weight workers

remaining : {Handle Real Callback Metrics : Type 0} → Scheduler Handle Real Callback Metrics → ℕ
remaining s = 2 * length s.tasks + weight s.workers

-- Either every worker has returned, or there is one that waits or one that holds a task.
data Look {Handle Real Callback : Type 0} (workers : List (Worker Handle Real Callback))
    : Type 0 where
  all_exited : All (λ worker. worker ≡ exited) workers → Look workers
  one_waits :
      (before after : List (Worker Handle Real Callback))
      → workers ≡ before ++ waiting ∷ after
      → Look workers
  one_works :
      (before after : List (Worker Handle Real Callback)) (task : Task Handle Real Callback)
      → workers ≡ before ++ busy task ∷ after
      → Look workers

module _ {Handle Real Callback : Type 0} where
  behind : (workers : List (Worker Handle Real Callback)) → Look workers → Look (exited ∷ workers)
  behind workers (all_exited h) = all_exited (refl, h)
  behind workers (one_waits before after e) =
      one_waits (exited ∷ before) after (ap (λ ws. exited ∷ ws) e)
  behind workers (one_works before after task e) =
      one_works (exited ∷ before) after task (ap (λ ws. exited ∷ ws) e)

  look : (workers : List (Worker Handle Real Callback)) → Look workers
  look [] = all_exited tt
  look (waiting ∷ workers) = one_waits [] workers refl
  look (busy task ∷ workers) = one_works [] workers task refl
  look (exited ∷ workers) = behind workers (look workers)

  weight-append :
      (before after : List (Worker Handle Real Callback))
      → weight (before ++ after) ≡ weight before + weight after
  unfolding weight
  weight-append [] after = omega arith
  weight-append (waiting ∷ ws) after = omega (arith, weight-append ws after)
  weight-append (busy task ∷ ws) after = omega (arith, weight-append ws after)
  weight-append (exited ∷ ws) after = weight-append ws after

module _ {World Handle Real Callback Metrics : Type 0} (ops : InferenceBackend World Handle Real)
    (sink : MetricsOps Metrics Real) (milliseconds : ℕ → ℕ → Real) where
  -- a run of steps
  pub data Steps
      : System World Handle Real Callback Metrics
        → System World Handle Real Callback Metrics
        → Type 0 where
    done : (s : System World Handle Real Callback Metrics) → Steps s s
    then_ :
        (s t u : System World Handle Real Callback Metrics)
        → Step ops sink milliseconds s t
        → Steps t u
        → Steps s u

  never-waits :
      (s : Scheduler Handle Real Callback Metrics) → next_turn sink s ≡ waits → s.stopping ≡ false
  unfolding next_turn
  never-waits s e = ground arith

  turn-cases :
      (s : Scheduler Handle Real Callback Metrics)
      → s.stopping ≡ true
      → (next_turn sink s ≡ returns)
        ⊎ ((task : Task Handle Real Callback) × (rest : Scheduler Handle Real Callback Metrics)
            × (next_turn sink s ≡ takes task rest))
  turn-cases s h = go _ refl
    where
      go :
          (turn : Turn Handle Real Callback Metrics)
          → next_turn sink s ≡ turn
          → (next_turn sink s ≡ returns)
            ⊎ ((task : Task Handle Real Callback) × (rest : Scheduler Handle Real Callback Metrics)
                × (next_turn sink s ≡ takes task rest))
      go returns e = inl e
      go (takes task rest) e = inr (task, rest, e)
      go waits e = absurd (cc (never-waits s e))

  -- what a state can come to
  pub Stops : System World Handle Real Callback Metrics → Type 0
  Stops s =
      (t : System World Handle Real Callback Metrics) × Steps s t × (t.scheduler.running ≡ false)

  remaining-Stops :
      (fuel : ℕ) (s : System World Handle Real Callback Metrics)
      → remaining s.scheduler < fuel
      → s.scheduler.stopping ≡ true
      → Stops s
  unfolding Stops remaining weight run_task end_stop
  remaining-Stops zero s h k = absurd (omega arith)
  remaining-Stops (suc fuel) s h k = elim (look s.scheduler.workers) [
    | all_exited joined ↦
        let t = record s { scheduler = end_stop s.scheduler } in
        (t, then_ s t t (has_stopped s k joined) (done t), refl)
    | one_works before after task e ↦
        let t = finished ops sink milliseconds task 0 0 (before ++ waiting ∷ after) s in
        let (u, run, idle) =
          remaining-Stops fuel t
            (omega (
              arith,
              h,
              ap weight e,
              weight-append before (busy task ∷ after),
              weight-append before (waiting ∷ after),
            ))
            k in
        (u, then_ s t u (finishes s before after task 0 0 e) run, idle)
    | one_waits before after e ↦ elim (turn-cases s.scheduler k) [
      | inl turn ↦
          let t = record s {
            scheduler = record s.scheduler { workers = before ++ exited ∷ after };
          } in
          let (u, run, idle) =
            remaining-Stops fuel t
              (omega (
                arith,
                h,
                ap weight e,
                weight-append before (waiting ∷ after),
                weight-append before (exited ∷ after),
              ))
              k in
          (u, then_ s t u (leaves s before after e turn) run, idle)
      | inr (task, rest, turn) ↦
          let t = record s {
            scheduler = record rest { workers = before ++ busy task ∷ after };
            taken = s.taken ++ task ∷ [];
          } in
          let (front, _, stops, _) = next_turn-takes sink s.scheduler rest task turn in
          let (u, run, idle) =
            remaining-Stops fuel t
              (omega (
                arith,
                h,
                ap length front,
                ap weight e,
                weight-append before (waiting ∷ after),
                weight-append before (busy task ∷ after),
              ))
              (stops ∙ k) in
          (u, then_ s t u (picks s before after task rest e turn) run, idle)
    ]
  ]

  begin_stop-stopping :
      (s : Scheduler Handle Real Callback Metrics)
      → s.running ≡ true
      → (begin_stop s).stopping ≡ true
  unfolding begin_stop
  begin_stop-stopping s h = ground arith

  -- A running scheduler that is asked to stop can come to its end: from there the workers take what
  -- is queued, return, and `stop` ends, with no call from outside, whatever is queued or in hand.
  pub begin_stop-Stops :
      (s : System World Handle Real Callback Metrics)
      → s.scheduler.running ≡ true
      → Stops (record s { scheduler = begin_stop s.scheduler })
  unfolding Stops
  begin_stop-Stops s h =
      remaining-Stops (suc (remaining (begin_stop s.scheduler))) _ (omega arith)
        (begin_stop-stopping s.scheduler h)
