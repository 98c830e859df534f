-- ===== src/Inference/Scheduler/Counts.antt =====
-- Counting the tasks of a scheduler: those that workers hold and those completed.
use my_tiny_network_library.Base.{
  ℕ, ◌≡◌, ◌+◌, Bool, List, [], ◌∷◌, ◌++◌, All, zero, suc, arith, refl, ap, ◌∙◌, replicate,
}
use my_tiny_network_library.Inference.Scheduler.{Task, Worker, waiting, busy, exited}
use my_tiny_network_library.Inference.Scheduler.System.{count}
use my_tiny_network_library.Inference.Scheduler.Inv.{in_hand, finished_tasks}

pub count-append :
    {A : Type 0} (test : A → Bool) (xs ys : List A)
    → count test (xs ++ ys) ≡ count test xs + count test ys
unfolding count
count-append test [] ys = omega arith
count-append test (x ∷ xs) ys = ground (arith, count-append test xs ys)

module _ {Handle Real Callback : Type 0} where
  pub in_hand-append :
      (test : Task Handle Real Callback → Bool) (before after : List (Worker Handle Real Callback))
      → count test (in_hand (before ++ after))
        ≡ count test (in_hand before) + count test (in_hand after)
  unfolding count
  in_hand-append test [] after = omega arith
  in_hand-append test (busy task ∷ ws) after = ground (arith, in_hand-append test ws after)
  in_hand-append test (waiting ∷ ws) after = in_hand-append test ws after
  in_hand-append test (exited ∷ ws) after = in_hand-append test ws after

  -- what workers hold, counted on both sides of one worker
  pub handed :
      (test : Task Handle Real Callback → Bool)
      (before after workers : List (Worker Handle Real Callback))
      (worker : Worker Handle Real Callback)
      → workers ≡ before ++ worker ∷ after
      → count test (in_hand workers)
        ≡ count test (in_hand before) + count test (in_hand (worker ∷ after))
  handed test before after workers worker e =
      ap (λ ws. count test (in_hand ws)) e ∙ in_hand-append test before (worker ∷ after)

  pub in_hand-replicate :
      (n : ℕ) → in_hand (replicate {A = Worker Handle Real Callback} n waiting) ≡ []
  in_hand-replicate zero = refl
  in_hand-replicate (suc n) = in_hand-replicate n

  pub in_hand-exited :
      (workers : List (Worker Handle Real Callback))
      → All (λ worker. worker ≡ exited) workers
      → in_hand workers ≡ []
  in_hand-exited [] h = refl
  in_hand-exited (waiting ∷ ws) h = in_hand-exited ws h.1
  in_hand-exited (busy task ∷ ws) h = absurd (cc (h.0))
  in_hand-exited (exited ∷ ws) h = in_hand-exited ws h.1

  pub finished_tasks-append :
      {R : Type 0} (done : List (Task Handle Real Callback × R)) (task : Task Handle Real Callback)
      (result : R)
      → finished_tasks (done ++ (task, result) ∷ []) ≡ finished_tasks done ++ task ∷ []
  finished_tasks-append [] task result = refl
  finished_tasks-append ((t, _) ∷ done) task result =
      ap (◌∷◌ t) (finished_tasks-append done task result)
