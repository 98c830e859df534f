-- ===== src/Reactor/Poller/Sync.antt =====
-- The epoll instance holds what the channels say.
use my_tiny_network_library.Base.{
  ℕ, ◌≡◌, ◌≢◌, refl, sym, ap, ◌∙◌, subst, Bool, true, false, none, some, ◌==◌, ==_iff, set,
  set_here, set_elsewhere, Bool-cases, inl, inr, ◌⊎◌,
}
use my_tiny_network_library.Reactor.Channel.{Channel}
use my_tiny_network_library.Reactor.Poller.{
  Epoll, Poller, Change, enable_reading, disable_reading, enable_writing, disable_writing,
  disable_all, wanted, update_channel, remove_channel, change,
}
use my_tiny_network_library.Reactor.Poller.Settles.{
  EpollLaws, expected, Placed, Fails, update_by-Tried, remove_by-Settles,
}

pub record InSync {Kernel : Type 0} (epoll : Epoll Kernel) (p : Poller Kernel) : Type 0 where
  pub distinct : (c d : ℕ) → (p.store c).fd ≡ (p.store d).fd → c ≡ d
  pub listed :
      (c : ℕ)
      → epoll.interest p.kernel (p.store c).fd ≡ expected (p.store c).index (p.store c).events
  pub strays : (fd : ℕ) → ((c : ℕ) → (p.store c).fd ≢ fd) → epoll.interest p.kernel fd ≡ none

module _ {Kernel : Type 0} (epoll : Epoll Kernel) where
  -- the other channels are in sync, and this one is where it was put
  Placed-InSync :
      (channel : ℕ) (p q : Poller Kernel)
      → ((c d : ℕ) → (p.store c).fd ≡ (p.store d).fd → c ≡ d)
      → ((c : ℕ)
          → c ≢ channel
          → epoll.interest p.kernel (p.store c).fd ≡ expected (p.store c).index (p.store c).events)
      → ((fd : ℕ) → ((c : ℕ) → (p.store c).fd ≢ fd) → epoll.interest p.kernel fd ≡ none)
      → Placed epoll channel p q
      → InSync epoll q
  Placed-InSync channel p q distinct others strays place = record {
    distinct = λ c d e. distinct c d (sym (fds c) ∙ e ∙ fds d);
    listed = λ c. at c _ refl;
    strays = λ fd none_of.
        let before : (c : ℕ) → (p.store c).fd ≢ fd = λ c e. none_of c (fds c ∙ e) in
        place.spared fd (λ e. before channel (sym e)) ∙ strays fd before;
  }
    where
      fd_at : (c : ℕ) (here : Bool) → (c == channel) ≡ here → (q.store c).fd ≡ (p.store c).fd
      fd_at c true e =
          subst (λ c. (q.store c).fd ≡ (p.store c).fd) (sym ((==_iff c channel).0 e)) place.same_fd
      fd_at c false e = ap (λ x. x.fd) (place.elsewhere c (λ k. cc ((==_iff c channel).1 k)))

      fds : (c : ℕ) → (q.store c).fd ≡ (p.store c).fd
      fds c = fd_at c _ refl

      at :
          (c : ℕ) (here : Bool)
          → (c == channel) ≡ here
          → epoll.interest q.kernel (q.store c).fd ≡ expected (q.store c).index (q.store c).events
      at c true e =
          subst
            (λ c.
              epoll.interest q.kernel (q.store c).fd
              ≡ expected (q.store c).index (q.store c).events)
            (sym ((==_iff c channel).0 e))
            (ap (epoll.interest q.kernel) place.same_fd ∙ place.agrees)
      at c false e =
          let other : c ≢ channel = λ k. cc ((==_iff c channel).1 k) in
          let same = place.elsewhere c other in
          ap (epoll.interest q.kernel) (fds c)
          ∙ place.spared (p.store c).fd (λ k. other (distinct c channel k))
          ∙ others c other
          ∙ ap (λ x. expected x.index x.events) (sym same)

  wanted-fd : (wish : Change) (c : Channel) → (wanted wish c).fd ≡ c.fd
  unfolding wanted
  wanted-fd enable_reading c = refl
  wanted-fd disable_reading c = refl
  wanted-fd enable_writing c = refl
  wanted-fd disable_writing c = refl
  wanted-fd disable_all c = refl

  wanted-index : (wish : Change) (c : Channel) → (wanted wish c).index ≡ c.index
  unfolding wanted
  wanted-index enable_reading c = refl
  wanted-index disable_reading c = refl
  wanted-index enable_writing c = refl
  wanted-index disable_writing c = refl
  wanted-index disable_all c = refl

  set-fd :
      (store : ℕ → Channel) (channel : ℕ) (fresh : Channel)
      → fresh.fd ≡ (store channel).fd
      → (c : ℕ) → (set channel fresh store c).fd ≡ (store c).fd
  set-fd store channel fresh e c = elim (Bool-cases (c == channel)) [
    | inl h ↦
        subst (λ c. (set channel fresh store c).fd ≡ (store c).fd) (sym ((==_iff c channel).0 h))
          (ap (λ x. x.fd) (set_here channel fresh store) ∙ e)
    | inr h ↦
        ap (λ x. x.fd) (set_elsewhere channel c fresh store (λ k. cc ((==_iff c channel).1 k)))
  ]

  -- Whatever a channel asks for, under the documented behaviour of epoll_ctl either the process ends
  -- and epoll_ctl has failed to add or change the descriptor of that channel, or the channel asks for
  -- it now and the interest list again holds exactly the descriptors of the channels that count as
  -- added, each with the events that its channel asks for, and no descriptor of no channel.
  pub change-InSync :
      (wish : Change) (channel : ℕ) (p : Poller Kernel)
      → EpollLaws epoll
      → InSync epoll p
      → ((change epoll wish channel p ≡ none)
          × Fails epoll (wanted wish (p.store channel)) channel p.kernel)
        ⊎ ((q : Poller Kernel) × (change epoll wish channel p ≡ some q)
            × ((q.store channel).events ≡ (wanted wish (p.store channel)).events)
            × InSync epoll q)
  unfolding change update_channel
  change-InSync wish channel p laws h =
      let c = wanted wish (p.store channel) in
      let p' : Poller Kernel = record p { store = set channel c p.store } in
      let here : p'.store channel ≡ c = set_here channel c p.store in
      let fd : (p'.store channel).fd ≡ (p.store channel).fd =
        ap (λ x. x.fd) here ∙ wanted-fd wish (p.store channel) in
      let index : (p'.store channel).index ≡ (p.store channel).index =
        ap (λ x. x.index) here ∙ wanted-index wish (p.store channel) in
      let fds = set-fd p.store channel c (wanted-fd wish (p.store channel)) in
      elim (update_by-Tried epoll (p'.store channel).index channel p' (p.store channel).events laws
        refl
        (ap (epoll.interest p.kernel) fd
          ∙ h.listed channel
          ∙ ap (λ i. expected i (p.store channel).events) (sym index))) [
            | inl (over, failed) ↦
                inl (over, subst (λ c. Fails epoll c channel p.kernel) here failed)
            | inr (q, done, place) ↦ inr (
              q,
              done,
              place.asks ∙ ap (λ x. x.events) here,
              Placed-InSync channel p' q (λ a b e. h.distinct a b (sym (fds a) ∙ e ∙ fds b))
                  (λ a k.
                    let same = set_elsewhere channel a c p.store k in
                    ap (epoll.interest p.kernel) (fds a)
                    ∙ h.listed a
                    ∙ ap (λ x. expected x.index x.events) (sym same))
                  (λ fd none_of. h.strays fd (λ a e. none_of a (fds a ∙ e))) place,
            )
          ]

  -- Under the documented behaviour of epoll_ctl a removal does not end the process, and keeps
  -- the interest list in step with the channels.
  pub remove_channel-InSync :
      (channel : ℕ) (p : Poller Kernel)
      → EpollLaws epoll
      → InSync epoll p
      → (q : Poller Kernel) × (remove_channel epoll channel p ≡ some q) × InSync epoll q
  unfolding remove_channel
  remove_channel-InSync channel p laws h =
      let p' : Poller Kernel = record p { channels = set (p.store channel).fd none p.channels } in
      let (q, done, place) =
        remove_by-Settles epoll (p.store channel).index channel p' laws (h.listed channel) in
      (q, done, Placed-InSync channel p' q h.distinct (λ a k. h.listed a) h.strays place)
