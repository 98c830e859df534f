-- ===== src/Inference/Scheduler/Moves.antt =====
-- What each function of the scheduler does to the invariant.
use my_tiny_network_library.Base.{
  ℕ, ◌≡◌, ◌<◌, true, false, List, [], ◌∷◌, ◌++◌, Option, some, none, All, All-map, All-append, zero,
  suc, length, length-append, arith, refl, sym, subst, Bytes, replicate, length-replicate, ◌⊎◌, inl,
  inr,
}
use my_tiny_network_library.Inference.Types.{InferenceRequest, InferenceBackend, MetricsOps}
use my_tiny_network_library.Inference.Registry.{ModelRegistry, initialize, resolve}
use my_tiny_network_library.Inference.Scheduler.{
  SubmitResult, accepted, Task, Worker, waiting, Scheduler, Admission, refused, admitted, returns,
  takes, init, start, launch, admit, admission, enqueue, submit, next_turn,
}
use my_tiny_network_library.Inference.Scheduler.Inv.{IsSound}

module _ {Handle Real Callback : Type 0} where
  -- the same workers, one of them in another state
  pub workers-All :
      (P : Worker Handle Real Callback → Type 0) (before after : List (Worker Handle Real Callback))
      (old new : Worker Handle Real Callback) (workers : List (Worker Handle Real Callback))
      → workers ≡ before ++ old ∷ after
      → All P workers
      → P new
      → All P (before ++ new ∷ after)
  workers-All P before after old new workers e h k = swap before (subst (All P) e h)
    where
      swap :
          (ws : List (Worker Handle Real Callback))
          → All P (ws ++ old ∷ after)
          → All P (ws ++ new ∷ after)
      swap [] a = (k, a.1)
      swap (w ∷ ws) a = (a.0, swap ws a.1)

  replicate-All :
      (P : Worker Handle Real Callback → Type 0) (n : ℕ) → P waiting → All P (replicate n waiting)
  replicate-All P zero h = tt
  replicate-All P (suc n) h = (h, replicate-All P n h)

module _ {Handle Real Callback Metrics : Type 0} where
  -- a request is let in only by a running scheduler that has room
  admit-admitted :
      (request : InferenceRequest Real) (completion : Option Callback) (now : ℕ)
      (found : Bytes × Option Handle) (s : Scheduler Handle Real Callback Metrics)
      (task : Task Handle Real Callback)
      → admit request completion now found s ≡ admitted task
      → length s.tasks < s.queue_capacity
  unfolding admit
  admit-admitted request completion now (name, none) s task e = cc
  admit-admitted request completion now (name, some backend) s task e = ground arith

  pub admission-admitted :
      (request : InferenceRequest Real) (completion : Option Callback) (now : ℕ)
      (s : Scheduler Handle Real Callback Metrics) (task : Task Handle Real Callback)
      → admission request completion now s ≡ admitted task
      → (s.running ≡ true) × (s.stopping ≡ false) × (length s.tasks < s.queue_capacity)
  unfolding admission
  admission-admitted request completion now s task e = ground (
    arith,
    admit-admitted request completion now (resolve s.registry request.model_name request.backend) s
        task,
  )

module _ {Handle Real Callback Metrics : Type 0} (sink : MetricsOps Metrics Real) where
  pub init-IsSound :
      (registry : ModelRegistry Handle) (worker_count queue_capacity : ℕ) (metrics : Option Metrics)
      → IsSound {Callback = Callback} (init sink registry worker_count queue_capacity metrics)
  unfolding init
  init-IsSound registry worker_count queue_capacity metrics = record {
    bounded = omega arith;
    idle = λ e. (refl, refl, refl);
    crew = λ e. cc;
    closing = tt;
  }

  enqueue-IsSound :
      (task : Task Handle Real Callback) (s : Scheduler Handle Real Callback Metrics)
      → IsSound s
      → s.running ≡ true
      → s.stopping ≡ false
      → length s.tasks < s.queue_capacity
      → IsSound (enqueue sink task s)
  unfolding enqueue
  enqueue-IsSound task s h runs unstopped room = record {
    bounded = omega (arith, length-append s.tasks (task ∷ []));
    idle = λ e. cc;
    crew = h.crew;
    closing = All-map _ _ (λ w k e. absurd (cc (k e).0)) s.workers h.closing;
  }

  -- the two ways of `submit`
  pub submit-refused :
      (request : InferenceRequest Real) (completion : Option Callback) (now : ℕ)
      (s : Scheduler Handle Real Callback Metrics) (result : SubmitResult)
      → admission request completion now s ≡ refused result
      → submit sink request completion now s ≡ (result, s)
  unfolding submit
  submit-refused request completion now s result e = rw (e, submit) refl

  pub submit-admitted :
      (request : InferenceRequest Real) (completion : Option Callback) (now : ℕ)
      (s : Scheduler Handle Real Callback Metrics) (task : Task Handle Real Callback)
      → admission request completion now s ≡ admitted task
      → submit sink request completion now s ≡ (accepted, enqueue sink task s)
  unfolding submit
  submit-admitted request completion now s task e = rw (e, submit) refl

  pub submit-IsSound :
      (request : InferenceRequest Real) (completion : Option Callback) (now : ℕ)
      (s : Scheduler Handle Real Callback Metrics)
      → IsSound s
      → IsSound (submit sink request completion now s).1
  submit-IsSound request completion now s h = go _ refl
    where
      go :
          (a : Admission Handle Real Callback)
          → admission request completion now s ≡ a
          → IsSound (submit sink request completion now s).1
      go (refused result) e =
          subst (λ p. IsSound p.1) (sym (submit-refused request completion now s result e)) h
      go (admitted task) e =
          let (runs, unstopped, room) = admission-admitted request completion now s task e in
          subst (λ p. IsSound p.1) (sym (submit-admitted request completion now s task e))
            (enqueue-IsSound task s h runs unstopped room)

  -- what `next_turn` has seen
  pub next_turn-takes :
      (s rest : Scheduler Handle Real Callback Metrics) (task : Task Handle Real Callback)
      → next_turn sink s ≡ takes task rest
      → (s.tasks ≡ task ∷ rest.tasks)
        × (rest.running ≡ s.running)
        × (rest.stopping ≡ s.stopping)
        × (rest.queue_capacity ≡ s.queue_capacity)
  unfolding next_turn
  next_turn-takes s rest task e = ground arith

  pub next_turn-returns :
      (s : Scheduler Handle Real Callback Metrics)
      → next_turn sink s ≡ returns
      → (s.tasks ≡ []) × (s.stopping ≡ true)
  unfolding next_turn
  next_turn-returns s e = ground arith

module _ {World Handle Real Callback Metrics : Type 0}
    (ops : InferenceBackend World Handle Real) where
  -- `start` leaves the scheduler, or gives it a new registry, or launches an idle one.
  pub start-cases :
      (s : Scheduler Handle Real Callback Metrics) (w : World)
      → ((start ops s w).1 ≡ s)
        ⊎ ((start ops s w).1 ≡ record s { registry = (initialize ops s.registry w).1 })
        ⊎ (((start ops s w).1 ≡ launch (initialize ops s.registry w).1 s)
            × (s.running ≡ false)
            × (0 < s.worker_count))
  unfolding start
  start-cases s w = ground arith

  launch-IsSound :
      (registry : ModelRegistry Handle) (s : Scheduler Handle Real Callback Metrics)
      → IsSound s
      → s.running ≡ false
      → 0 < s.worker_count
      → IsSound (launch registry s)
  unfolding launch
  launch-IsSound registry s h e k = record {
    bounded = h.bounded;
    idle = λ no. cc;
    crew = λ yes. omega (
      arith,
      length-append s.workers (replicate s.worker_count waiting),
      length-replicate {A = Worker Handle Real Callback} s.worker_count waiting,
    );
    closing =
        All-append _ s.workers _ (subst (All _) (sym (h.idle e).0) tt)
          (replicate-All _ s.worker_count (λ no. cc));
  }

  pub start-IsSound :
      (s : Scheduler Handle Real Callback Metrics) (w : World)
      → IsSound s
      → IsSound (start ops s w).1
  start-IsSound s w h = elim (start-cases s w) [
    | inl e ↦ subst IsSound (sym e) h
    | inr (inl e) ↦
        subst IsSound (sym e)
          (record { bounded = h.bounded; idle = h.idle; crew = h.crew; closing = h.closing })
    | inr (inr (e, idle, crew)) ↦ subst IsSound (sym e) (launch-IsSound _ s h idle crew)
  ]
