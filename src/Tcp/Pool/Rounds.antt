-- ===== src/Tcp/Pool/Rounds.antt =====
-- The pool hands its loops out in turn.
use my_tiny_network_library.Base.{
  ℕ, zero, suc, ◌+◌, ◌<◌, ◌≡◌, refl, sym, ap, ◌∙◌, arith, Bool, true, false, List, [], ◌∷◌, ◌++◌,
  append_assoc, Option, none, some, if◌then◌else◌, leb, ◌==◌, length, length-append, get_elem?,
  take, drop, take-drop, length-drop, length-take,
}
use my_tiny_network_library.Tcp.Pool.{Pool, get_next_loop}

module _ {Loop : Type 0} where
  -- one loop in front of those of the further calls
  abbrev pub in_front : Loop → Option (List Loop × Pool Loop) → Option (List Loop × Pool Loop)
  in_front loop none = none
  in_front loop (some (loops, p)) = some (loop ∷ loops, p)

  abbrev pub then_calls :
      (Pool Loop → Option (List Loop × Pool Loop))
      → Option (Loop × Pool Loop)
      → Option (List Loop × Pool Loop)
  then_calls more none = none
  then_calls more (some (loop, p)) = in_front loop (more p)

  -- what n calls of `getNextLoop` hand out
  abbrev pub next_loops : ℕ → Pool Loop → Option (List Loop × Pool Loop)
  next_loops zero p = some ([], p)
  next_loops (suc n) p = then_calls (next_loops n) (get_next_loop p)

  elem-append :
      (front : List Loop) (loop : Loop) (rest : List Loop)
      → get_elem? (front ++ loop ∷ rest) (length front) ≡ some loop
  elem-append [] loop rest = refl
  elem-append (x ∷ front) loop rest = elem-append front loop rest

  get_next_loop-at :
      (p : Pool Loop) (front : List Loop) (loop : Loop) (rest : List Loop)
      → p.loops ≡ front ++ loop ∷ rest
      → p.next ≡ length front
      → get_next_loop p
        ≡ some
            (loop, record p { next = if leb (length p.loops) (suc p.next) then 0 else suc p.next })
  unfolding get_next_loop
  get_next_loop-at p front loop rest e h =
      let found : get_elem? p.loops p.next ≡ some loop =
        ap (get_elem? p.loops) h
        ∙ ap (λ l. get_elem? l (length front)) e
        ∙ elem-append front loop rest in
      let total : length p.loops ≡ length front + suc (length rest) =
        ap length e ∙ length-append front (loop ∷ rest) in
      let busy : (length p.loops == 0) ≡ false = ground (arith, total) in rw (busy, found) refl

  -- within the loops, and at the last one
  moved_on :
      (p : Pool Loop) (loop : Loop) (at : ℕ) (wraps : Bool)
      → leb (length p.loops) (suc p.next) ≡ wraps
      → get_next_loop p
        ≡ some
            (loop, record p { next = if leb (length p.loops) (suc p.next) then 0 else suc p.next })
      → (if wraps then 0 else suc p.next) ≡ at
      → get_next_loop p ≡ some (loop, record p { next = at })
  moved_on p loop at wraps e h k =
      h
      ∙ ap (λ b. some (loop, record p { next = if b then 0 else suc p.next })) e
      ∙ ap (λ n. some (loop, record p { next = n })) k

  -- the calls up to a place within the loops
  calls-within :
      (ls : List Loop) (p : Pool Loop) (front : List Loop) (x : Loop) (behind : List Loop)
      → p.loops ≡ front ++ (ls ++ x ∷ behind)
      → p.next ≡ length front
      → next_loops (length ls) p ≡ some (ls, record p { next = length front + length ls })
  calls-within [] p front x behind e h =
      ap (λ n. some ([], record p { next = n })) (omega (arith, h))
  calls-within (l ∷ ls) p front x behind e h =
      let total : length p.loops ≡ length front + suc (length ls + suc (length behind)) = omega (
        arith,
        ap length e,
        length-append front (l ∷ (ls ++ x ∷ behind)),
        length-append ls (x ∷ behind),
      ) in
      let call =
        moved_on p l (suc p.next) false (ground (arith, total, h))
          (get_next_loop-at p front l (ls ++ x ∷ behind) e h) refl in
      ap (then_calls (next_loops (length ls))) call
      ∙ ap (in_front l) (
          calls-within ls (record p { next = suc p.next }) (front ++ l ∷ []) x behind
            (e ∙ sym (append_assoc front (l ∷ []) (ls ++ x ∷ behind)))
            (omega (arith, h, length-append front (l ∷ []))))
      ∙ ap (λ n. some (l ∷ ls, record p { next = n })) (omega (arith, length-append front (l ∷ [])))

  -- the calls up to the end
  calls-end :
      (l : Loop) (ls : List Loop) (p : Pool Loop) (front : List Loop)
      → p.loops ≡ front ++ l ∷ ls
      → p.next ≡ length front
      → next_loops (suc (length ls)) p ≡ some (l ∷ ls, record p { next = 0 })
  calls-end l [] p front e h =
      let total : length p.loops ≡ length front + 1 = ap length e ∙ length-append front (l ∷ []) in
      ap (then_calls (next_loops 0))
        (moved_on p l 0 true (ground (arith, total, h)) (get_next_loop-at p front l [] e h) refl)
  calls-end l (m ∷ ls) p front e h =
      let total : length p.loops ≡ length front + suc (suc (length ls)) =
        ap length e ∙ length-append front (l ∷ m ∷ ls) in
      let call =
        moved_on p l (suc p.next) false (ground (arith, total, h))
          (get_next_loop-at p front l (m ∷ ls) e h) refl in
      ap (then_calls (next_loops (suc (length ls)))) call
      ∙ ap (in_front l) (
          calls-end m ls (record p { next = suc p.next }) (front ++ l ∷ [])
            (e ∙ sym (append_assoc front (l ∷ []) (m ∷ ls)))
            (omega (arith, h, length-append front (l ∷ []))))

  -- loops in front of those of the further calls
  abbrev behind : List Loop → Option (List Loop × Pool Loop) → Option (List Loop × Pool Loop)
  behind first none = none
  behind first (some (loops, p)) = some (first ++ loops, p)

  abbrev with_more : ℕ → Option (List Loop × Pool Loop) → Option (List Loop × Pool Loop)
  with_more m none = none
  with_more m (some (first, p)) = behind first (next_loops m p)

  behind-nil : (o : Option (List Loop × Pool Loop)) → o ≡ behind [] o
  behind-nil none = refl
  behind-nil (some _) = refl

  in_front-behind :
      (loop : Loop) (first : List Loop) (o : Option (List Loop × Pool Loop))
      → in_front loop (behind first o) ≡ behind (loop ∷ first) o
  in_front-behind loop first none = refl
  in_front-behind loop first (some _) = refl

  in_front-with_more :
      (loop : Loop) (m : ℕ) (o : Option (List Loop × Pool Loop))
      → in_front loop (with_more m o) ≡ with_more m (in_front loop o)
  in_front-with_more loop m none = refl
  in_front-with_more loop m (some (first, p)) = in_front-behind loop first (next_loops m p)

  -- first n calls, and then m more
  calls-more : (n m : ℕ) (p : Pool Loop) → next_loops (n + m) p ≡ with_more m (next_loops n p)
  calls-more zero m p = ap (λ n. next_loops n p) (omega arith) ∙ behind-nil (next_loops m p)
  calls-more (suc n) m p =
      let count : suc n + m ≡ suc (n + m) = omega arith in
      ap (λ n. next_loops n p) count ∙ go (calls-more n m) (get_next_loop p)
    where
      go :
          ((q : Pool Loop) → next_loops (n + m) q ≡ with_more m (next_loops n q))
          → (o : Option (Loop × Pool Loop))
          → then_calls (next_loops (n + m)) o ≡ with_more m (then_calls (next_loops n) o)
      go rest none = refl
      go rest (some (loop, q)) =
          ap (in_front loop) (rest q) ∙ in_front-with_more loop m (next_loops n q)

  round-at :
      (p : Pool Loop) (front back : List Loop)
      → p.loops ≡ front ++ back
      → p.next ≡ length front
      → 0 < length back
      → next_loops (length p.loops) p ≡ some (back ++ front, p)
  round-at p front [] e h k = absurd (omega arith)
  round-at p front (l ∷ ls) e h k =
      ap (λ n. next_loops n p) (omega (arith, ap length e, length-append front (l ∷ ls)))
      ∙ calls-more (suc (length ls)) (length front) p
      ∙ ap (with_more (length front)) (calls-end l ls p front e h)
      ∙ ap (behind (l ∷ ls)) (calls-within front (record p { next = 0 }) [] l ls e refl)
      ∙ ap (λ n. some ((l ∷ ls) ++ front, record p { next = n })) (omega (arith, h))

  -- A pool that has loops, whatever its turn is: as many calls of `getNextLoop` as there are loops
  -- hand out every loop once, from the one whose turn it is to the last and then from the first on,
  -- and leave the pool as it was.
  pub next_loops-round :
      (p : Pool Loop)
      → p.next < length p.loops
      → next_loops (length p.loops) p ≡ some (drop p.next p.loops ++ take p.next p.loops, p)
  next_loops-round p h =
      round-at p (take p.next p.loops) (drop p.next p.loops) (sym (take-drop p.next p.loops))
        (omega (arith, h, length-take p.next p.loops))
        (omega (arith, h, length-drop p.next p.loops))
