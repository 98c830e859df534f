-- ===== src/Logger/Async/Order.antt =====
-- The threads that log and the one that writes, as steps in any order.
use my_tiny_network_library.Base.{
  ℕ, ◌<◌, ◌≤◌, ◌≡◌, ◌≢◌, refl, sym, ap, ap₂, ◌∙◌, subst, arith, true, false, List, [], ◌∷◌, ◌++◌,
  append_assoc, append-nil, Option, none, some, ltb, Bytes, length, length-append, take, All,
  All-append, Bool-cases, inl, inr,
}
use my_tiny_network_library.Logger.Fixed.{
  FixedBuffer, IsFixed, written, fresh, avail, append, reset, append-IsFixed,
}
use my_tiny_network_library.Logger.Async.{
  Front, Back, spare, log, collect, write_out, init, init_back,
}

abbrev pub all_written : List FixedBuffer → Bytes
all_written [] = []
all_written (b ∷ buffers) = written b ++ all_written buffers

-- the texts that were written into buffers, and texts one behind the other
abbrev pub texts_of : List FixedBuffer → List Bytes
texts_of [] = []
texts_of (b ∷ buffers) = written b ∷ texts_of buffers

abbrev pub together : List Bytes → Bytes
together [] = []
together (text ∷ texts) = text ++ together texts

-- Each piece of the file begins with the text of its own. What follows in it is what else the buffer
-- holds.
pub data Heads : List Bytes → List Bytes → Type 0 where
  no_piece : Heads [] []
  piece :
      (text rest : Bytes) {texts pieces : List Bytes}
      → Heads texts pieces
      → Heads (text ∷ texts) ((text ++ rest) ∷ pieces)

-- `logged` is what was logged, and `handed` the texts in the buffers that went to the file.
pub record System : Type 0 where
  pub front : Front
  pub back : Back
  pub logged : Bytes
  pub handed : List Bytes

module _ (size : ℕ) where
  pub data Step (s : System) : System → Type 0 where
    logs :
        (raw line : Bytes)
        → length raw ≡ size
        → length line < size
        → Step s (record s { front = log raw line s.front; logged = s.logged ++ line })
    collects :
        (f : Front) (b : Back)
        → s.back.to_write ≡ []
        → collect s.front s.back ≡ some (f, b)
        → Step s (record s { front = f; back = b })
    writes :
        (b : Back)
        → s.back.to_write ≢ []
        → write_out s.back ≡ some b
        → Step s (record s { back = b; handed = s.handed ++ texts_of s.back.to_write })

  pub data Reachable : System → Type 0 where
    started :
        (a b c d : Bytes)
        → length a ≡ size
        → length b ≡ size
        → length c ≡ size
        → length d ≡ size
        → Reachable (record { front = init a b; back = init_back c d; logged = []; handed = [] })
    next : (s t : System) → Reachable s → Step s t → Reachable t

  pub record IsClean (b : FixedBuffer) : Type 0 where
    pub fixed : IsFixed size b
    pub empty : b.cur ≡ 0

  -- A missing next buffer means that a full one waits for the file.
  abbrev pub Backed : Option FixedBuffer → List FixedBuffer → Type 0
  Backed none buffers = 0 < length buffers
  Backed (some b) buffers = IsClean b

  -- A missing second buffer means that two are there to take it from.
  abbrev pub Fit : Option FixedBuffer → List FixedBuffer → Type 0
  Fit none buffers = 2 ≤ length buffers
  Fit (some b) buffers = IsClean b

  abbrev pub Held : Option FixedBuffer → Type 0
  Held o = (b : FixedBuffer) × (o ≡ some b) × IsClean b

  abbrev pub Ready : List FixedBuffer → Option FixedBuffer → Option FixedBuffer → Type 0
  Ready [] new_1 new_2 = Held new_1 × Held new_2
  Ready (x ∷ buffers) new_1 new_2 =
      (new_1 ≡ none) × All (IsFixed size) (x ∷ buffers) × Fit new_2 (x ∷ buffers)

  pub record FrontOk (f : Front) : Type 0 where
    pub current : IsFixed size f.current
    pub backed : Backed f.next f.buffers
    pub full : All (IsFixed size) f.buffers

abbrev pub content : Front → Bytes
content f = all_written f.buffers ++ written f.current

pub all_written-append :
    (xs ys : List FixedBuffer) → all_written (xs ++ ys) ≡ all_written xs ++ all_written ys
all_written-append [] ys = refl
all_written-append (x ∷ xs) ys =
    ap (λ l. written x ++ l) (all_written-append xs ys)
    ∙ sym (append_assoc (written x) (all_written xs) (all_written ys))

pub fresh-IsClean : (size : ℕ) (raw : Bytes) → length raw ≡ size → IsClean size (fresh raw)
unfolding fresh
fresh-IsClean size raw h = record {
  fixed = record { sized = h; within = omega arith };
  empty = refl;
}

pub reset-IsClean : (size : ℕ) (b : FixedBuffer) → IsFixed size b → IsClean size (reset b)
unfolding reset
reset-IsClean size b h = record {
  fixed = record { sized = h.sized; within = omega arith };
  empty = refl;
}

spare-IsClean :
    (size : ℕ) (raw : Bytes) (o : Option FixedBuffer) (buffers : List FixedBuffer)
    → length raw ≡ size
    → Backed size o buffers
    → IsClean size (spare raw o)
spare-IsClean size raw none buffers h k = fresh-IsClean size raw h
spare-IsClean size raw (some b) buffers h k = k

log-room :
    (raw line : Bytes) (f : Front)
    → ltb (length line) (avail f.current) ≡ true
    → log raw line f ≡ record f { current = append line f.current }
unfolding log
log-room raw line f e = rw e refl

log-full :
    (raw line : Bytes) (f : Front)
    → ltb (length line) (avail f.current) ≡ false
    → log raw line f ≡ (record {
      current = append line (spare raw f.next);
      next = none;
      buffers = f.buffers ++ f.current ∷ [];
    })
unfolding log
log-full raw line f e = rw e refl

-- a clean buffer holds a line alone
clean-append :
    (size : ℕ) (line : Bytes) (b : FixedBuffer)
    → IsClean size b
    → length line < size
    → IsFixed size (append line b) × (written (append line b) ≡ line)
unfolding avail
clean-append size line b h k =
    let (fixed, same) =
      append-IsFixed size line b h.fixed (omega (arith, h.empty, h.fixed.sized)) in
    (fixed, same ∙ ap (λ n. take n b.data_ ++ line) h.empty)

-- a line is logged behind the others, wherever it goes
pub log-FrontOk :
    (size : ℕ) (raw line : Bytes) (f : Front)
    → length raw ≡ size
    → length line < size
    → FrontOk size f
    → FrontOk size (log raw line f) × (content (log raw line f) ≡ content f ++ line)
log-FrontOk size raw line f r small h = elim (Bool-cases (ltb (length line) (avail f.current))) [
  | inl e ↦
      let (fixed, same) = append-IsFixed size line f.current h.current (ground arith) in
      subst (λ g. FrontOk size g × (content g ≡ content f ++ line)) (sym (log-room raw line f e))
        (
          record { current = fixed; backed = h.backed; full = h.full },
          ap (λ l. all_written f.buffers ++ l) same
              ∙ sym (append_assoc (all_written f.buffers) (written f.current) line),
        )
  | inr e ↦
      let (fixed, same) =
        clean-append size line (spare raw f.next)
          (spare-IsClean size raw f.next f.buffers r h.backed) small in
      subst (λ g. FrontOk size g × (content g ≡ content f ++ line)) (sym (log-full raw line f e))
        (
          record {
            current = fixed;
            backed = omega (arith, length-append f.buffers (f.current ∷ []));
            full = All-append _ f.buffers (f.current ∷ []) h.full (h.current, tt);
          },
          ap₂ (λ a b. a ++ b)
              (all_written-append f.buffers (f.current ∷ [])
                ∙ ap (λ l. all_written f.buffers ++ l) (append-nil (written f.current)))
              same,
        )
]
