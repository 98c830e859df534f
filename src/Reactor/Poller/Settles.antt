-- ===== src/Reactor/Poller/Settles.antt =====
-- A call of the poller for one channel: unless `epoll_ctl` fails, the epoll instance holds what the
-- channel says.
use my_tiny_network_library.Base.{
  ℕ, ◌≡◌, ◌≢◌, refl, sym, ap, ◌∙◌, arith, Bool, true, false, Option, none, some, set, set_here,
  set_elsewhere, ◌⊎◌, inl, inr,
}
use my_tiny_network_library.Reactor.Channel.{
  Channel, Events, Index, new, added, deleted, is_none_event,
}
use my_tiny_network_library.Reactor.Poller.{
  Epoll, Poller, Operation, ctl_add, ctl_mod, ctl_del, update, update_added, update_by, remove_by,
  set_index, is_del, then_index,
}

-- What epoll_ctl(2) documents: a descriptor that is not in the interest list is added and one that is
-- in it is changed, where the call succeeds; a removal of one that is in it removes it; and no other
-- descriptor is concerned. An addition or a change may fail, as for want of memory.
pub record EpollLaws {Kernel : Type 0} (epoll : Epoll Kernel) : Type 0 where
  pub adds :
      (fd : ℕ) (events : Events) (channel : ℕ) (k : Kernel)
      → epoll.interest k fd ≡ none
      → (epoll.epoll_ctl ctl_add fd events channel k).0 ≡ true
      → epoll.interest (epoll.epoll_ctl ctl_add fd events channel k).1 fd ≡ some events
  pub changes :
      (fd : ℕ) (events old : Events) (channel : ℕ) (k : Kernel)
      → epoll.interest k fd ≡ some old
      → (epoll.epoll_ctl ctl_mod fd events channel k).0 ≡ true
      → epoll.interest (epoll.epoll_ctl ctl_mod fd events channel k).1 fd ≡ some events
  pub removes :
      (fd : ℕ) (events old : Events) (channel : ℕ) (k : Kernel)
      → epoll.interest k fd ≡ some old
      → epoll.interest (epoll.epoll_ctl ctl_del fd events channel k).1 fd ≡ none
  pub spares :
      (operation : Operation) (fd other : ℕ) (events : Events) (channel : ℕ) (k : Kernel)
      → other ≢ fd
      → epoll.interest (epoll.epoll_ctl operation fd events channel k).1 other
        ≡ epoll.interest k other

-- `epoll_ctl` fails to add or to change the descriptor of this channel.
pub record Fails {Kernel : Type 0} (epoll : Epoll Kernel) (c : Channel) (channel : ℕ) (k : Kernel)
    : Type 0 where
  pub operation : Operation
  pub no_removal : is_del operation ≡ false
  pub fails : (epoll.epoll_ctl operation c.fd c.events channel k).0 ≡ false

-- what the interest list is to hold for a channel
abbrev pub expected : Index → Events → Option Events
expected added events = some events
expected _ events = none

-- One channel and its descriptor have changed, and what the poller holds of it agrees.
pub record Placed {Kernel : Type 0} (epoll : Epoll Kernel) (channel : ℕ) (p q : Poller Kernel)
    : Type 0 where
  pub same_fd : (q.store channel).fd ≡ (p.store channel).fd
  pub asks : (q.store channel).events ≡ (p.store channel).events
  pub agrees :
      epoll.interest q.kernel (p.store channel).fd
      ≡ expected (q.store channel).index (q.store channel).events
  pub elsewhere : (d : ℕ) → d ≢ channel → q.store d ≡ p.store d
  pub spared :
      (fd : ℕ) → fd ≢ (p.store channel).fd → epoll.interest q.kernel fd ≡ epoll.interest p.kernel fd

module _ {Kernel : Type 0} (epoll : Epoll Kernel) where
  update-cases :
      (operation : Operation) (c : Channel) (channel : ℕ) (p : Poller Kernel)
      → is_del operation ≡ false
      → let (fine, kernel) = epoll.epoll_ctl operation c.fd c.events channel p.kernel in
        ((fine ≡ false) × (update epoll operation c channel p ≡ none))
        ⊎ ((fine ≡ true)
            × (update epoll operation c channel p ≡ some (record p { kernel = kernel })))
  unfolding update
  update-cases operation c channel p h = go _ refl
    where
      go :
          (fine : Bool)
          → (epoll.epoll_ctl operation c.fd c.events channel p.kernel).0 ≡ fine
          → let (fine, kernel) = epoll.epoll_ctl operation c.fd c.events channel p.kernel in
            ((fine ≡ false) × (update epoll operation c channel p ≡ none))
            ⊎ ((fine ≡ true)
                × (update epoll operation c channel p ≡ some (record p { kernel = kernel })))
      go true e = inr (e, rw (update, e) refl)
      go false e = inl (e, rw (update, e, h) refl)

  update-del :
      (c : Channel) (channel : ℕ) (p : Poller Kernel)
      → update epoll ctl_del c channel p
        ≡ some (record p { kernel = (epoll.epoll_ctl ctl_del c.fd c.events channel p.kernel).1 })
  unfolding update
  update-del c channel p = ground arith

  -- a poller whose store has this channel in the place of the old one, and this kernel
  placed :
      (c : Channel) (channel : ℕ) (p : Poller Kernel) (channels : ℕ → Option ℕ) (kernel : Kernel)
      → c.fd ≡ (p.store channel).fd
      → c.events ≡ (p.store channel).events
      → epoll.interest kernel (p.store channel).fd ≡ expected c.index c.events
      → ((fd : ℕ)
          → fd ≢ (p.store channel).fd
          → epoll.interest kernel fd ≡ epoll.interest p.kernel fd)
      → Placed epoll channel p
          (record p { store = set channel c p.store; channels = channels; kernel = kernel })
  placed c channel p channels kernel fd events h spared = record {
    same_fd = ap (λ c. c.fd) (set_here channel c p.store) ∙ fd;
    asks = ap (λ c. c.events) (set_here channel c p.store) ∙ events;
    agrees = h ∙ sym (ap (λ c. expected c.index c.events) (set_here channel c p.store));
    elsewhere = λ d k. set_elsewhere channel d c p.store k;
    spared = spared;
  }

  -- a call that does not end the process, and leaves the channel agreeing with the kernel
  abbrev pub Settles : ℕ → Poller Kernel → Option (Poller Kernel) → Type 0
  Settles channel p result = (q : Poller Kernel) × (result ≡ some q) × Placed epoll channel p q

  -- a call that ends the process because `epoll_ctl` fails, or settles the channel
  abbrev pub Tried : ℕ → Poller Kernel → Option (Poller Kernel) → Type 0
  Tried channel p result =
      ((result ≡ none) × Fails epoll (p.store channel) channel p.kernel) ⊎ Settles channel p result

  update_added-Tried :
      (channel : ℕ) (p : Poller Kernel) (old : Events)
      → EpollLaws epoll
      → (p.store channel).index ≡ added
      → epoll.interest p.kernel (p.store channel).fd ≡ some old
      → Tried channel p (update_added epoll channel p)
  unfolding update_added
  update_added-Tried channel p old laws i h = go _ refl
    where
      c : Channel
      c = p.store channel

      go :
          (idle : Bool)
          → is_none_event (p.store channel) ≡ idle
          → Tried channel p (update_added epoll channel p)
      go true e = inr (
        _,
        rw (e, update_added) (ap (then_index epoll deleted channel) (update-del c channel p)),
        placed (record c { index = deleted }) channel p p.channels _ refl refl
            (laws.removes c.fd c.events old channel p.kernel h)
            (λ fd k. laws.spares ctl_del c.fd fd c.events channel p.kernel k),
      )
      go false e = elim (update-cases ctl_mod c channel p refl) [
        | inl (bad, over) ↦ inl (
          rw (e, update_added) over,
          record { operation = ctl_mod; no_removal = refl; fails = bad },
        )
        | inr (fine, done) ↦ inr (
          record p { kernel = (epoll.epoll_ctl ctl_mod c.fd c.events channel p.kernel).1 },
          rw (e, update_added) done,
          record {
            same_fd = refl;
            asks = refl;
            agrees =
                laws.changes c.fd c.events old channel p.kernel h fine
                ∙ ap (λ i. expected i c.events) (sym i);
            elsewhere = λ d k. refl;
            spared = λ fd k. laws.spares ctl_mod c.fd fd c.events channel p.kernel k;
          },
        )
      ]

  -- the two branches that add the descriptor
  adds-Tried :
      (channel : ℕ) (p : Poller Kernel) (channels : ℕ → Option ℕ)
      → EpollLaws epoll
      → epoll.interest p.kernel (p.store channel).fd ≡ none
      → Tried channel p (
          update epoll ctl_add
            (p.store channel)
            channel
            (set_index epoll added channel (record p { channels = channels })))
  adds-Tried channel p channels laws h =
      let c = p.store channel in
      let p' : Poller Kernel = set_index epoll added channel (record p { channels = channels }) in
      elim (update-cases ctl_add c channel p' refl) [
        | inl (bad, over) ↦
            inl (over, record { operation = ctl_add; no_removal = refl; fails = bad })
        | inr (fine, done) ↦ inr (
          _,
          done,
          placed (record c { index = added }) channel p channels _ refl refl
              (laws.adds c.fd c.events channel p.kernel h fine)
              (λ fd k. laws.spares ctl_add c.fd fd c.events channel p.kernel k),
        )
      ]

  pub update_by-Tried :
      (index : Index) (channel : ℕ) (p : Poller Kernel) (old : Events)
      → EpollLaws epoll
      → (p.store channel).index ≡ index
      → epoll.interest p.kernel (p.store channel).fd ≡ expected index old
      → Tried channel p (update_by epoll index channel p)
  update_by-Tried new channel p old laws i h =
      adds-Tried channel p (set (p.store channel).fd (some channel) p.channels) laws h
  update_by-Tried deleted channel p old laws i h = adds-Tried channel p p.channels laws h
  update_by-Tried added channel p old laws i h = update_added-Tried channel p old laws i h

  pub remove_by-Settles :
      (index : Index) (channel : ℕ) (p : Poller Kernel)
      → EpollLaws epoll
      → epoll.interest p.kernel (p.store channel).fd ≡ expected index (p.store channel).events
      → Settles channel p (remove_by epoll index channel p)
  remove_by-Settles added channel p laws h =
      let c = p.store channel in
      (
        _,
        ap (then_index epoll new channel) (update-del c channel p),
        placed (record c { index = new }) channel p p.channels _ refl refl
            (laws.removes c.fd c.events c.events channel p.kernel h)
            (λ fd k. laws.spares ctl_del c.fd fd c.events channel p.kernel k),
      )
  remove_by-Settles new channel p laws h =
      let c = p.store channel in
      (
        _,
        refl,
        placed (record c { index = new }) channel p p.channels p.kernel refl refl h (λ fd k. refl),
      )
  remove_by-Settles deleted channel p laws h =
      let c = p.store channel in
      (
        _,
        refl,
        placed (record c { index = new }) channel p p.channels p.kernel refl refl h (λ fd k. refl),
      )
