-- ===== src/Logger/Async/Turns.antt =====
-- A turn of the thread that writes, and the log as a whole.
use my_tiny_network_library.Logger.Async.Pieces.{Heads-append, write_all-Heads, together-texts_of}
use my_tiny_network_library.Base.{
  ℕ, ◌≡◌, ◌≢◌, refl, sym, ap, ap₂, ◌∙◌, subst, arith, List, [], ◌∷◌, ◌++◌, append_assoc, append-nil,
  Option, none, some, Bytes, length-append, take, All, All-append,
}
use my_tiny_network_library.Logger.Fixed.{FixedBuffer, IsFixed, written, fresh, reset}
use my_tiny_network_library.Logger.Async.{
  Front, Back, refill, collect_with, collect, pop_back, give_back, restock_1, restock_2, write_out,
  write_all, init, init_back,
}
use my_tiny_network_library.Logger.Async.Order.{
  all_written, texts_of, together, Heads, no_piece, System, Step, logs, collects, writes, Reachable,
  started, next, Backed, Fit, Held, Ready, FrontOk, content, all_written-append, fresh-IsClean,
  reset-IsClean, log-FrontOk,
}

module _ (size : ℕ) where
  refill-Fit :
      (o new_2 : Option FixedBuffer) (buffers : List FixedBuffer) (current : FixedBuffer)
      → Held size new_2
      → Backed size o buffers
      → Backed size (refill o new_2).0 [] × Fit size (refill o new_2).1 (buffers ++ current ∷ [])
  refill-Fit none new_2 buffers current (b, e, clean) h = (
    subst (λ o. Backed size o []) (sym e) clean,
    omega (arith, h, length-append buffers (current ∷ [])),
  )
  refill-Fit (some c) new_2 buffers current (b, e, clean) h =
      (h, subst (λ o. Fit size o (buffers ++ current ∷ [])) (sym e) clean)

  busy-Ready :
      (buffers : List FixedBuffer) (current : FixedBuffer) (new_2 : Option FixedBuffer)
      → All (IsFixed size) buffers
      → IsFixed size current
      → Fit size new_2 (buffers ++ current ∷ [])
      → Ready size (buffers ++ current ∷ []) none new_2
  busy-Ready [] current new_2 h k fit = (refl, (k, tt), fit)
  busy-Ready (x ∷ buffers) current new_2 h k fit =
      (refl, (h.0, All-append _ buffers (current ∷ []) h.1 (k, tt)), fit)

  -- a turn under the mutex
  record Collected (f : Front) (b : Back) (f' : Front) (b' : Back) : Type 0 where
    front : FrontOk size f'
    ready : Ready size b'.to_write b'.new_1 b'.new_2
    moved : all_written b'.to_write ++ content f' ≡ content f
    output : b'.output ≡ b.output

  collect-Collected :
      (f : Front) (b : Back)
      → FrontOk size f
      → Ready size b.to_write b.new_1 b.new_2
      → b.to_write ≡ []
      → (f' : Front) × (b' : Back) × (collect f b ≡ some (f', b')) × Collected f b f' b'
  unfolding collect
  collect-Collected f b h ready e =
      let ((c, held, clean), second) = subst (λ l. Ready size l b.new_1 b.new_2) e ready in
      let (backed, fit) = refill-Fit f.next b.new_2 f.buffers f.current second h.backed in
      (
        _,
        _,
        ap (λ o. collect_with o f b) held,
        record {
          front = record {
            current = clean.fixed;
            backed = subst (Backed size (refill f.next b.new_2).0) (sym e) backed;
            full = subst (All (IsFixed size)) (sym e) tt;
          };
          ready = busy-Ready f.buffers f.current (refill f.next b.new_2).1 h.full h.current fit;
          moved =
              ap₂ (λ l r. l ++ r)
                (all_written-append f.buffers (f.current ∷ [])
                  ∙ ap (λ l. all_written f.buffers ++ l) (append-nil (written f.current)))
                (ap₂ (λ l n. all_written l ++ take n c.data_) e clean.empty)
              ∙ append-nil (all_written f.buffers ++ written f.current);
          output = refl;
        },
      )

  -- the buffers that go back, by what there is, and the output as it is
  abbrev Restocked : List Bytes → Option Back → Type 0
  Restocked output o =
      (b : Back) × (o ≡ some b)
      × (b.to_write ≡ [])
      × Held size b.new_1
      × Held size b.new_2
      × (b.output ≡ output)

  restock-Restocked :
      (b : Back) (x : FixedBuffer) (buffers : List FixedBuffer) (new_2 : Option FixedBuffer)
      → b.new_2 ≡ new_2
      → IsFixed size x
      → All (IsFixed size) buffers
      → Fit size new_2 (x ∷ buffers)
      → Restocked b.output (restock_1 b (give_back none (take 2 (x ∷ buffers))))
  unfolding pop_back
  restock-Restocked b x [] none e h k fit = absurd (omega (arith, fit))
  restock-Restocked b x [] (some d) e h k fit = (
    _,
    ap (λ o. restock_2 (record b { new_1 = some (reset x) }) (give_back o [])) e,
    refl,
    (_, refl, reset-IsClean size x h),
    (_, refl, fit),
    refl,
  )
  restock-Restocked b x (y ∷ buffers) none e h k fit = (
    _,
    ap (λ o. restock_2 (record b { new_1 = some (reset y) }) (give_back o (x ∷ []))) e,
    refl,
    (_, refl, reset-IsClean size y k.0),
    (_, refl, reset-IsClean size x h),
    refl,
  )
  restock-Restocked b x (y ∷ buffers) (some d) e h k fit = (
    _,
    ap (λ o. restock_2 (record b { new_1 = some (reset y) }) (give_back o (x ∷ []))) e,
    refl,
    (_, refl, reset-IsClean size y k.0),
    (_, refl, fit),
    refl,
  )

  write_out-Restocked :
      (b : Back)
      → Ready size b.to_write b.new_1 b.new_2
      → b.to_write ≢ []
      → Restocked (b.output ++ write_all b.to_write) (write_out b)
  unfolding write_out
  write_out-Restocked b ready busy = go b.to_write refl ready
    where
      go :
          (l : List FixedBuffer)
          → b.to_write ≡ l
          → Ready size l b.new_1 b.new_2
          → Restocked (b.output ++ write_all b.to_write) (write_out b)
      go [] e r = absurd (busy e)
      go (x ∷ buffers) e (none_left, fixed, fit) =
          subst (Restocked (b.output ++ write_all b.to_write))
            (ap₂
              (λ o l.
                restock_1 (record b { output = b.output ++ write_all b.to_write })
                  (give_back o (take 2 l)))
              (sym none_left) (sym e))
            (restock-Restocked (record b { output = b.output ++ write_all b.to_write }) x buffers
              b.new_2 refl fixed.0 fixed.1 fit)

  pub record IsLog (s : System) : Type 0 where
    pub front : FrontOk size s.front
    pub ready : Ready size s.back.to_write s.back.new_1 s.back.new_2
    pub filed : Heads s.handed s.back.output
    pub order : together s.handed ++ (all_written s.back.to_write ++ content s.front) ≡ s.logged

  Step-IsLog : (s t : System) → Step size s t → IsLog s → IsLog t
  Step-IsLog s t (logs raw line r small) h =
      let (front, same) = log-FrontOk size raw line s.front r small h.front in
      record {
        front = front;
        ready = h.ready;
        filed = h.filed;
        order =
            ap (λ l. together s.handed ++ (all_written s.back.to_write ++ l)) same
            ∙ ap (λ l. together s.handed ++ l)
                (sym (append_assoc (all_written s.back.to_write) (content s.front) line))
            ∙ sym (
                append_assoc (together s.handed) (all_written s.back.to_write ++ content s.front)
                  line)
            ∙ ap (λ l. l ++ line) h.order;
      }
  Step-IsLog s t (collects f b e k) h =
      let (f', b', done, c) = collect-Collected s.front s.back h.front h.ready e in
      let fronts : f' ≡ f = cc (done, k) in
      let backs : b' ≡ b = cc (done, k) in
      subst (λ x. IsLog (record s { front = x; back = b })) fronts
        (subst (λ y. IsLog (record s { front = f'; back = y })) backs
          (record {
            front = c.front;
            ready = c.ready;
            filed = subst (Heads s.handed) (sym c.output) h.filed;
            order =
                ap (λ l. together s.handed ++ l) c.moved
                ∙ ap (λ l. together s.handed ++ (all_written l ++ content s.front)) (sym e)
                ∙ h.order;
          }))
  Step-IsLog s t (writes b busy k) h =
      let (b', done, idle, first, second, output) = write_out-Restocked s.back h.ready busy in
      let same : b' ≡ b = cc (done, k) in
      subst (λ p. IsLog (record s { back = p; handed = s.handed ++ texts_of s.back.to_write })) same
        (record {
          front = h.front;
          ready = subst (λ l. Ready size l b'.new_1 b'.new_2) (sym idle) (first, second);
          filed =
              subst (Heads (s.handed ++ texts_of s.back.to_write)) (sym output)
                (Heads-append _ _ _ _ h.filed (write_all-Heads s.back.to_write));
          order =
              ap
                (λ l.
                  together (s.handed ++ texts_of s.back.to_write)
                  ++ (all_written l ++ content s.front))
                idle
              ∙ ap (λ l. l ++ content s.front) (together-texts_of s.handed s.back.to_write)
              ∙ append_assoc (together s.handed) (all_written s.back.to_write) (content s.front)
              ∙ h.order;
        })

  Reachable-IsLog : (s : System) → Reachable size s → IsLog s
  unfolding init init_back fresh
  Reachable-IsLog s (started a b c d ha hb hc hd) = record {
    front = record {
      current = (fresh-IsClean size a ha).fixed;
      backed = fresh-IsClean size b hb;
      full = tt;
    };
    ready = ((_, refl, fresh-IsClean size c hc), (_, refl, fresh-IsClean size d hd));
    filed = no_piece;
    order = ap (λ n. take n a) (fresh-IsClean size a ha).empty;
  }
  Reachable-IsLog t (next s _ r step) = Step-IsLog s t step (Reachable-IsLog s r)

  -- No line is lost or moved on the way to the file: for lines shorter than a buffer, in every state that
  -- the logging threads and the writing one can reach, the file has got a piece for each buffer that
  -- went to it, which begins with what was written into that buffer; and what was written into those
  -- buffers, those on their way, the full ones and the current one is, in this order, what was logged.
  pub Reachable-logged :
      (s : System)
      → Reachable size s
      → Heads s.handed s.back.output
        × (together s.handed ++ (all_written s.back.to_write ++ content s.front) ≡ s.logged)
  Reachable-logged s r = let h = Reachable-IsLog s r in (h.filed, h.order)

  -- The writing thread never stumbles over its buffers: in every state that can be reached, when it
  -- has none to write its turn under the mutex finds a new buffer, and when it has some its turn behind
  -- the mutex takes a buffer from the back of the vector only if there is one.
  pub Reachable-turns :
      (s : System)
      → Reachable size s
      → (s.back.to_write ≡ [] → collect s.front s.back ≢ none)
        × (s.back.to_write ≢ [] → write_out s.back ≢ none)
  Reachable-turns s r =
      let h = Reachable-IsLog s r in
      (
        λ e no.
            let (_, _, done, _) = collect-Collected s.front s.back h.front h.ready e in
            absurd (cc (done, no)),
        λ e no.
            let (_, done, _, _, _, _) = write_out-Restocked s.back h.ready e in
            absurd (cc (done, no)),
      )
