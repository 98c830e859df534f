-- ===== src/Inference/Scheduler/Once.antt =====
-- The records of a scheduler along its steps: the order of the queue, and that a task let in is
-- served once.
use my_tiny_network_library.Base.{
  ℕ, ◌≡◌, ◌≤◌, ◌+◌, Bool, false, [], ◌∷◌, ◌++◌, append_assoc, append-nil, Option, length, arith,
  refl, sym, ap, ◌∙◌, inl, inr, replicate,
}
use my_tiny_network_library.Inference.Types.{InferenceRequest, InferenceBackend, MetricsOps}
use my_tiny_network_library.Inference.Scheduler.{
  Task, waiting, busy, exited, Scheduler, Admission, refused, admitted, init, start, launch,
  begin_stop, end_stop, admission, enqueue, submit, run_task,
}
use my_tiny_network_library.Inference.Scheduler.System.{
  System, Step, submits, starts, asks_to_stop, picks, finishes, leaves, has_stopped, Reachable,
  fresh, next, count, let_in,
}
use my_tiny_network_library.Inference.Scheduler.Inv.{IsSound, IsRecorded, in_hand, finished_tasks}
use my_tiny_network_library.Inference.Scheduler.Moves.{
  submit-refused, submit-admitted, next_turn-takes, start-cases,
}
use my_tiny_network_library.Inference.Scheduler.Drain.{Reachable-IsSound, begin_stop-cases}
use my_tiny_network_library.Inference.Scheduler.Counts.{
  count-append, in_hand-append, handed, in_hand-replicate, in_hand-exited, finished_tasks-append,
}

module _ {World Handle Real Callback Metrics : Type 0} (ops : InferenceBackend World Handle Real)
    (sink : MetricsOps Metrics Real) (milliseconds : ℕ → ℕ → Real) where
  -- `start` changes neither the queue nor what workers hold
  start-kept :
      (s : Scheduler Handle Real Callback Metrics) (w : World)
      → IsSound s
      → ((start ops s w).1.tasks ≡ s.tasks)
        × (in_hand (start ops s w).1.workers ≡ in_hand s.workers)
  unfolding launch
  start-kept s w h = elim (start-cases ops s w) [
    | inl e ↦ (ap (λ x. x.tasks) e, ap (λ x. in_hand x.workers) e)
    | inr (inl e) ↦ (ap (λ x. x.tasks) e, ap (λ x. in_hand x.workers) e)
    | inr (inr (e, idle, crew)) ↦ (
      ap (λ x. x.tasks) e,
      ap (λ x. in_hand x.workers) e
          ∙ ap (λ ws. in_hand (ws ++ replicate s.worker_count waiting)) (h.idle idle).0
          ∙ in_hand-replicate s.worker_count
          ∙ sym (ap in_hand (h.idle idle).0),
    )
  ]

  begin_stop-kept :
      (s : Scheduler Handle Real Callback Metrics)
      → ((begin_stop s).tasks ≡ s.tasks) × ((begin_stop s).workers ≡ s.workers)
  begin_stop-kept s = elim (begin_stop-cases s) [
    | inl e ↦ (ap (λ x. x.tasks) e, ap (λ x. x.workers) e)
    | inr (runs, e) ↦ (ap (λ x. x.tasks) e, ap (λ x. x.workers) e)
  ]

  submit-kept :
      (request : InferenceRequest Real) (completion : Option Callback) (now : ℕ)
      (s : Scheduler Handle Real Callback Metrics)
      → ((submit sink request completion now s).1.tasks
          ≡ s.tasks ++ let_in (admission request completion now s))
        × ((submit sink request completion now s).1.workers ≡ s.workers)
  unfolding enqueue
  submit-kept request completion now s = go _ refl
    where
      go :
          (a : Admission Handle Real Callback)
          → admission request completion now s ≡ a
          → ((submit sink request completion now s).1.tasks
              ≡ s.tasks ++ let_in (admission request completion now s))
            × ((submit sink request completion now s).1.workers ≡ s.workers)
      go (refused result) e = (
        ap (λ p. p.1.tasks) (submit-refused sink request completion now s result e)
            ∙ sym (append-nil s.tasks)
            ∙ sym (ap (λ a. s.tasks ++ let_in a) e),
        ap (λ p. p.1.workers) (submit-refused sink request completion now s result e),
      )
      go (admitted task) e = (
        ap (λ p. p.1.tasks) (submit-admitted sink request completion now s task e)
            ∙ sym (ap (λ a. s.tasks ++ let_in a) e),
        ap (λ p. p.1.workers) (submit-admitted sink request completion now s task e),
      )

  Step-IsRecorded :
      (s t : System World Handle Real Callback Metrics)
      → Step ops sink milliseconds s t
      → IsSound s.scheduler
      → IsRecorded s
      → IsRecorded t
  unfolding count run_task end_stop
  Step-IsRecorded s t (submits request completion now _) h k =
      let (tasks, workers) = submit-kept request completion now s.scheduler in
      record {
        order =
            ap (λ l. l ++ let_in (admission request completion now s.scheduler)) k.order
            ∙ append_assoc s.taken s.scheduler.tasks _
            ∙ sym (ap (λ l. s.taken ++ l) tasks);
        once = λ test.
            k.once test
            ∙ sym (
                ap (λ ws. count test (in_hand ws) + count test (finished_tasks s.completed))
                  workers);
      }
  Step-IsRecorded s t (starts _) h k =
      let (tasks, hands) = start-kept s.scheduler s.world h in
      record {
        order = k.order ∙ sym (ap (λ l. s.taken ++ l) tasks);
        once = λ test.
            k.once test
            ∙ sym (ap (λ l. count test l + count test (finished_tasks s.completed)) hands);
      }
  Step-IsRecorded s t (asks_to_stop _) h k =
      let (tasks, workers) = begin_stop-kept s.scheduler in
      record {
        order = k.order ∙ sym (ap (λ l. s.taken ++ l) tasks);
        once = λ test.
            k.once test
            ∙ sym (
                ap (λ ws. count test (in_hand ws) + count test (finished_tasks s.completed))
                  workers);
      }
  Step-IsRecorded s t (picks _ before after task rest e turn) h k =
      let (front, _, _, _) = next_turn-takes sink s.scheduler rest task turn in
      record {
        order =
            k.order
            ∙ ap (λ l. s.taken ++ l) front
            ∙ sym (append_assoc s.taken (task ∷ []) rest.tasks);
        once = λ test. ground (
          arith,
          k.once test,
          handed test before after s.scheduler.workers waiting e,
          in_hand-append test before (busy task ∷ after),
          count-append test s.taken (task ∷ []),
        );
      }
  Step-IsRecorded s t (finishes _ before after task t1 t2 e) h k = record {
    order = k.order;
    once = λ test. ground (
      arith,
      k.once test,
      handed test before after s.scheduler.workers (busy task) e,
      in_hand-append test before (waiting ∷ after),
      ap (count test) (
          finished_tasks-append s.completed task
            (run_task ops sink milliseconds task t1 t2 s.scheduler s.world).0),
      count-append test (finished_tasks s.completed) (task ∷ []),
    );
  }
  Step-IsRecorded s t (leaves _ before after e turn) h k = record {
    order = k.order;
    once = λ test. ground (
      arith,
      k.once test,
      handed test before after s.scheduler.workers waiting e,
      in_hand-append test before (exited ∷ after),
    );
  }
  Step-IsRecorded s t (has_stopped _ stops joined) h k = record {
    order = k.order;
    once = λ test.
        k.once test
        ∙ ap (λ l. count test l + count test (finished_tasks s.completed))
            (in_hand-exited s.scheduler.workers joined);
  }

  Reachable-IsRecorded :
      (s : System World Handle Real Callback Metrics)
      → Reachable ops sink milliseconds s
      → IsRecorded s
  unfolding count init
  Reachable-IsRecorded s (fresh registry n capacity metrics world) = record {
    order = refl;
    once = λ test. refl;
  }
  Reachable-IsRecorded t (next s _ r step) =
      Step-IsRecorded s t step (Reachable-IsSound ops sink milliseconds s r)
        (Reachable-IsRecorded s r)

  -- In every state that calls and workers can reach, the queue holds at most `queueCapacity_` tasks,
  -- and the tasks let in are those that workers took, in that order, and then the queue.
  pub Reachable-queue :
      (s : System World Handle Real Callback Metrics)
      → Reachable ops sink milliseconds s
      → (length s.scheduler.tasks ≤ s.scheduler.queue_capacity)
        × (s.accepted ≡ s.taken ++ s.scheduler.tasks)
  Reachable-queue s r =
      ((Reachable-IsSound ops sink milliseconds s r).bounded, (Reachable-IsRecorded s r).order)

  -- Whenever the scheduler does not run, in particular after `stop`, every task that was let in has
  -- been served exactly once: any test counts as many of them as of the tasks completed.
  pub Reachable-served :
      (s : System World Handle Real Callback Metrics) (test : Task Handle Real Callback → Bool)
      → Reachable ops sink milliseconds s
      → s.scheduler.running ≡ false
      → count test s.accepted ≡ count test (finished_tasks s.completed)
  unfolding count
  Reachable-served s test r idle =
      let h = Reachable-IsSound ops sink milliseconds s r in
      let k = Reachable-IsRecorded s r in
      let (workers, tasks, _) = h.idle idle in
      omega (
        arith,
        k.once test,
        ap (count test) k.order,
        count-append test s.taken s.scheduler.tasks,
        ap (count test) tasks,
        ap (λ ws. count test (in_hand ws)) workers,
      )
