-- ===== src/Reactor/Loop/Wakeups.antt =====
-- What holds of a loop whatever the threads do: no wakeup is lost, and functors run in order.
use my_tiny_network_library.Base.{
  ℕ, suc, if◌then◌else◌, ◌+◌, ◌<◌, ◌≡◌, ◌≢◌, refl, sym, ap, ap₂, ◌∙◌, subst, arith, Bool, true,
  false, List, [], ◌∷◌, ◌++◌, append_assoc, append-nil, length,
}
use my_tiny_network_library.Reactor.Loop.{
  Loop, must_wake, wakeup, push, queue_in_loop, handle_read, begin_functors, queue_all,
  end_functors,
}
use my_tiny_network_library.Reactor.Loop.System.{
  Phase, polling, handling, calling, System, Step, pushes, wakes, poll_returns, reads_counter,
  queues_here, begins, runs, ends, Reachable, fresh, next,
}

-- Does the loop have to be woken for what is pending?
abbrev at_events : Phase → Bool
at_events handling = true
at_events _ = false

abbrev in_calls : Phase → Bool
in_calls calling = true
in_calls _ = false

pub record IsSound {Functor : Type 0} (s : System Functor) : Type 0 where
  pub awake :
      at_events s.phase ≡ false → s.loop.pending_functors ≢ [] → 0 < s.loop.counter + s.waking
  pub flag : s.loop.calling_pending_functors ≡ in_calls s.phase
  pub clear : in_calls s.phase ≡ false → s.loop.functors ≡ []
  pub order : s.queued ≡ s.executed ++ (s.loop.functors ++ s.loop.pending_functors)

-- what queueing from within `doPendingFunctors` does
record Queued {Functor : Type 0} (fs : List Functor) (s t : Loop Functor) : Type 0 where
  pending : t.pending_functors ≡ s.pending_functors ++ fs
  woken : t.counter ≡ s.counter + length fs
  calls : t.calling_pending_functors ≡ s.calling_pending_functors
  current : t.functors ≡ s.functors

module _ {Functor : Type 0} where
  -- another thread always wakes the loop
  waking-other :
      (f : Functor) (s : Loop Functor) (n : ℕ)
      → (if must_wake false (push f s) then suc n else n) ≡ suc n
  unfolding must_wake
  waking-other f s n = refl

  queue_in_loop-calling :
      (f : Functor) (s : Loop Functor)
      → s.calling_pending_functors ≡ true
      → queue_in_loop true f s ≡ wakeup (push f s)
  unfolding queue_in_loop must_wake push
  queue_in_loop-calling f s e = rw (e, queue_in_loop) refl

  queue_in_loop-handling :
      (f : Functor) (s : Loop Functor)
      → s.calling_pending_functors ≡ false
      → queue_in_loop true f s ≡ push f s
  unfolding queue_in_loop must_wake push
  queue_in_loop-handling f s e = rw (e, queue_in_loop) refl

  queue_all-Queued :
      (fs : List Functor) (s : Loop Functor)
      → s.calling_pending_functors ≡ true
      → Queued fs s (queue_all fs s)
  unfolding queue_all wakeup push
  queue_all-Queued [] s e = record {
    pending = sym (append-nil s.pending_functors);
    woken = omega arith;
    calls = refl;
    current = refl;
  }
  queue_all-Queued (f ∷ fs) s e =
      subst (λ t. Queued (f ∷ fs) s (queue_all fs t)) (sym (queue_in_loop-calling f s e))
        (let q = queue_all-Queued fs (wakeup (push f s)) e in
          record {
            pending = q.pending ∙ append_assoc s.pending_functors (f ∷ []) fs;
            woken = omega (arith, q.woken);
            calls = q.calls;
            current = q.current;
          })

  -- behind the functors that one has queued, the loop is awake if anything is pending
  pending-awake :
      (fs : List Functor) (s t : Loop Functor) (waking : ℕ)
      → Queued fs s t
      → (s.pending_functors ≢ [] → 0 < s.counter + waking)
      → t.pending_functors ≢ []
      → 0 < t.counter + waking
  pending-awake [] s t waking q h k =
      omega (arith, q.woken, h (λ e. k (q.pending ∙ append-nil s.pending_functors ∙ e)))
  pending-awake (f ∷ fs) s t waking q h k = omega (arith, q.woken)

-- the record of a round in which one functor was run
turned :
    {Functor : Type 0} (queued executed now pending more rest now' pending' : List Functor)
    (f : Functor)
    → queued ≡ executed ++ (now ++ pending)
    → now ≡ f ∷ rest
    → now' ≡ rest
    → pending' ≡ pending ++ more
    → queued ++ more ≡ (executed ++ f ∷ []) ++ (now' ++ pending')
turned queued executed now pending more rest now' pending' f h k a b =
    ap (λ l. l ++ more) h
    ∙ append_assoc executed (now ++ pending) more
    ∙ ap (λ l. executed ++ l) (append_assoc now pending more)
    ∙ ap (λ l. executed ++ (l ++ (pending ++ more))) k
    ∙ sym (append_assoc executed (f ∷ []) (rest ++ (pending ++ more)))
    ∙ ap₂ (λ l r. (executed ++ f ∷ []) ++ (l ++ r)) (sym a) (sym b)

module _ {Functor : Type 0} (queues : Functor → List Functor) where
  Step-IsSound : (s t : System Functor) → Step queues s t → IsSound s → IsSound t
  unfolding push wakeup handle_read begin_functors end_functors
  Step-IsSound s t (pushes f) h = record {
    awake = λ _ _. omega (arith, waking-other f s.loop s.waking);
    flag = h.flag;
    clear = h.clear;
    order =
        ap (λ l. l ++ f ∷ []) h.order
        ∙ append_assoc s.executed (s.loop.functors ++ s.loop.pending_functors) (f ∷ [])
        ∙ ap (λ l. s.executed ++ l) (append_assoc s.loop.functors s.loop.pending_functors (f ∷ []));
  }
  Step-IsSound s t (wakes n e) h = record {
    awake = λ _ _. omega arith;
    flag = h.flag;
    clear = h.clear;
    order = h.order;
  }
  Step-IsSound s t (poll_returns e) h = record {
    awake = λ no _. absurd (cc no);
    flag = h.flag ∙ ap in_calls e;
    clear = λ _. h.clear (ap in_calls e);
    order = h.order;
  }
  Step-IsSound s t (reads_counter e) h = record {
    awake = λ no _. absurd (cc (no, ap at_events e));
    flag = h.flag;
    clear = h.clear;
    order = h.order;
  }
  Step-IsSound s t (queues_here f e k) h =
      subst (λ l. IsSound (record s { loop = l; queued = s.queued ++ f ∷ [] }))
        (sym (queue_in_loop-handling f s.loop k))
        (record {
          awake = λ no _. absurd (cc (no, ap at_events e));
          flag = h.flag;
          clear = h.clear;
          order =
              ap (λ l. l ++ f ∷ []) h.order
              ∙ append_assoc s.executed (s.loop.functors ++ s.loop.pending_functors) (f ∷ [])
              ∙ ap (λ l. s.executed ++ l)
                  (append_assoc s.loop.functors s.loop.pending_functors (f ∷ []));
        })
  Step-IsSound s t (begins e) h = record {
    awake = λ _ no. absurd (no refl);
    flag = refl;
    clear = λ no. absurd (cc no);
    order =
        h.order
        ∙ ap (λ l. s.executed ++ (l ++ s.loop.pending_functors)) (h.clear (ap in_calls e))
        ∙ ap (λ l. s.executed ++ l) (sym (append-nil s.loop.pending_functors));
  }
  Step-IsSound s t (runs f rest e k) h =
      let q =
        queue_all-Queued (queues f) (record s.loop { functors = rest }) (h.flag ∙ ap in_calls e) in
      record {
        awake = λ _ some_pending.
            pending-awake (queues f) (record s.loop { functors = rest })
              (queue_all (queues f) (record s.loop { functors = rest })) s.waking q
              (h.awake (ap at_events e)) some_pending;
        flag = q.calls ∙ h.flag;
        clear = λ no. absurd (cc (no, ap in_calls e));
        order =
            turned s.queued s.executed s.loop.functors s.loop.pending_functors (queues f) rest _ _ f
              h.order k q.current q.pending;
      }
  Step-IsSound s t (ends e k) h = record {
    awake = λ _ some_pending. h.awake (ap at_events e) some_pending;
    flag = refl;
    clear = λ _. k;
    order = h.order;
  }

  Reachable-IsSound : (s : System Functor) → Reachable queues s → IsSound s
  Reachable-IsSound s fresh = record {
    awake = λ _ no. absurd (no refl);
    flag = refl;
    clear = λ _. refl;
    order = refl;
  }
  Reachable-IsSound t (next s _ r step) = Step-IsSound s t step (Reachable-IsSound s r)

  -- No wakeup is lost: whenever the thread of the loop waits in `poll` while functors are pending, the
  -- eventfd is readable, or the thread that queued one is about to make it so; for a loop whose own
  -- thread has queued nothing before it enters `loop()`.
  pub Reachable-awake :
      (s : System Functor)
      → Reachable queues s
      → s.phase ≡ polling
      → s.loop.pending_functors ≢ []
      → 0 < s.loop.counter + s.waking
  Reachable-awake s r e k = (Reachable-IsSound s r).awake (ap at_events e) k

  -- Functors run in the order in which they were queued, each of them once: those executed, those of
  -- the round that is under way and those pending are together the ones that were queued.
  pub Reachable-order :
      (s : System Functor)
      → Reachable queues s
      → s.queued ≡ s.executed ++ (s.loop.functors ++ s.loop.pending_functors)
  Reachable-order s r = (Reachable-IsSound s r).order
