-- ===== src/Inference/Yolo/Suppress.antt =====
-- Non-maximum suppression: which of the detected objects are kept.
use mathlib.Core.Logic.Or
use mathlib.Core.Logic.{∥∥₁_elim}
use mathlib.Core.List.{
  Mem, Perm, Pairwise, mem-cons, mem-append, mem-cons_self, not-mem-nil, Pairwise-append,
}
use mathlib.Core.List.Perm
use my_tiny_network_library.Base.{
  ◌≡◌, ◌⊎◌, inl, inr, refl, sym, subst, arith, Bool, true, false, List, [], ◌∷◌, ◌++◌,
  if◌then◌else◌, Bool-cases,
}
use my_tiny_network_library.Inference.Types.{Detection}
use my_tiny_network_library.Inference.Yolo.{
  Floats, overlaps, suppressed, select_from, scores_higher, suppress,
}

-- What `std::sort` documents, for an order: the same elements, and none that is to stand in front of
-- an earlier one.
pub record Sorts {A : Type 0} (sort : (A → A → Bool) → List A → List A) (before : A → A → Bool)
    : Type 0 where
  pub same : (xs : List A) → Perm (sort before xs) xs
  pub in_order : (xs : List A) → Pairwise (λ a b. before b a ≡ false) (sort before xs)

module _ {Real : Type 0} (f : Floats Real) (nms : Real) where
  -- kept objects: a later one does not overlap an earlier one
  abbrev pub Apart : List (Detection Real) → Type 0
  Apart = Pairwise (λ a b. overlaps f nms b a ≡ false)

  -- An object that is kept, or overlaps one that is and does not score less.
  abbrev pub Covered : List (Detection Real) → Detection Real → Type 0
  Covered selected d = ∥ (
      (k : Detection Real) × Mem k selected
      × ((k ≡ d) ⊎ ((overlaps f nms d k ≡ true) × (scores_higher f d k ≡ false)))) ∥₁

  clear-all :
      (d : Detection Real) (selected : List (Detection Real))
      → suppressed f nms d selected ≡ false
      → (k : Detection Real) → Mem k selected
      → overlaps f nms d k ≡ false
  unfolding suppressed
  clear-all d [] h k m = absurd (not-mem-nil m)
  clear-all d (x ∷ selected) h k m =
      Or.elim (hlevel) (mem-cons.0 m) (λ e. rw e (ground (arith, h)))
        (λ n. clear-all d selected (ground (arith, h)) k n)

  suppressed-by :
      (d : Detection Real) (selected : List (Detection Real))
      → suppressed f nms d selected ≡ true
      → ∥ ((k : Detection Real) × Mem k selected × (overlaps f nms d k ≡ true)) ∥₁
  unfolding suppressed
  suppressed-by d [] h = absurd (cc h)
  suppressed-by d (x ∷ selected) h = elim (Bool-cases (overlaps f nms d x)) [
    | inl e ↦ ∣ (x, mem-cons_self, e) ∣₁
    | inr e ↦
        ∥∥₁_elim (suppressed-by d selected (ground (arith, h, e))) (hlevel)
          (λ p. ∣ (p.0, mem-cons.1 ∣ inr p.1 ∣₁, p.2) ∣₁)
  ]

  mem-step :
      (d k : Detection Real) (selected : List (Detection Real)) (b : Bool)
      → Mem k (if b then selected else selected ++ d ∷ [])
      → ∥ (Mem k selected ⊎ (k ≡ d)) ∥₁
  mem-step d k selected true m = ∣ inl m ∣₁
  mem-step d k selected false m =
      Or.elim (hlevel) (mem-append.0 m) (λ n. ∣ inl n ∣₁)
        (λ n. Or.elim (hlevel) (mem-cons.0 n) (λ e. ∣ inr e ∣₁) (λ o. absurd (not-mem-nil o)))

  mem-select_from :
      (k : Detection Real) (rest selected : List (Detection Real))
      → Mem k selected
      → Mem k (select_from f nms rest selected)
  unfolding select_from
  mem-select_from k [] selected m = m
  mem-select_from k (d ∷ rest) selected m =
      mem-select_from k rest _ (go (suppressed f nms d selected))
    where
      go : (b : Bool) → Mem k (if b then selected else selected ++ d ∷ [])
      go true = m
      go false = mem-append.1 ∣ inl m ∣₁

  select_from-mem :
      (k : Detection Real) (rest selected : List (Detection Real))
      → Mem k (select_from f nms rest selected)
      → ∥ (Mem k selected ⊎ Mem k rest) ∥₁
  unfolding select_from
  select_from-mem k [] selected m = ∣ inl m ∣₁
  select_from-mem k (d ∷ rest) selected m =
      Or.elim (hlevel) (select_from-mem k rest _ m)
        (λ n.
          Or.elim (hlevel) (mem-step d k selected (suppressed f nms d selected) n) (λ o. ∣ inl o ∣₁)
            (λ e. ∣ inr (mem-cons.1 ∣ inl e ∣₁) ∣₁))
        (λ n. ∣ inr (mem-cons.1 ∣ inr n ∣₁) ∣₁)

  select_from-Apart :
      (rest selected : List (Detection Real))
      → Apart selected
      → Apart (select_from f nms rest selected)
  unfolding select_from
  select_from-Apart [] selected h = h
  select_from-Apart (d ∷ rest) selected h = select_from-Apart rest _ (go _ refl)
    where
      go :
          (b : Bool)
          → suppressed f nms d selected ≡ b
          → Apart (if b then selected else selected ++ d ∷ [])
      go true e = h
      go false e = (Pairwise-append (λ a b. (hlevel))).1 (
        h,
        Pairwise.cons (λ a m. absurd (not-mem-nil m)) Pairwise.nil,
        λ a m b n.
            Or.elim (hlevel) (mem-cons.0 n) (λ same. rw same (clear-all d selected e a m))
              (λ o. absurd (not-mem-nil o)),
      )

  -- no object that is still to come scores higher than those seen
  select_from-Covered :
      (rest selected : List (Detection Real))
      → ((k d : Detection Real) → Mem k selected → Mem d rest → scores_higher f d k ≡ false)
      → Pairwise (λ a b. scores_higher f b a ≡ false) rest
      → (d : Detection Real) → Mem d rest
      → Covered (select_from f nms rest selected) d
  unfolding select_from
  select_from-Covered [] selected above order d m = absurd (not-mem-nil m)
  select_from-Covered (c ∷ rest) selected above (Pairwise.cons first order) d m =
      Or.elim (hlevel) (mem-cons.0 m) (λ e. subst (Covered _) (sym e) (here _ refl))
        (λ n. select_from-Covered rest _ further order d n)
    where
      further :
          (k d : Detection Real)
          → Mem k (if suppressed f nms c selected then selected else selected ++ c ∷ [])
          → Mem d rest
          → scores_higher f d k ≡ false
      further k d m n =
          Or.elim (hlevel) (mem-step c k selected (suppressed f nms c selected) m)
            (λ o. above k d o (mem-cons.1 ∣ inr n ∣₁)) (λ e. rw e (first d n))

      here :
          (b : Bool)
          → suppressed f nms c selected ≡ b
          → Covered
              (select_from f nms rest
                (if suppressed f nms c selected then selected else selected ++ c ∷ []))
              c
      here true e = ∥∥₁_elim (suppressed-by c selected e) (hlevel) (λ p. ∣ (
        p.0,
        mem-select_from p.0 rest _ (rw e p.1),
        inr (p.2, above p.0 c p.1 mem-cons_self),
      ) ∣₁)
      here false e =
          ∣ (c, mem-select_from c rest _ (rw e (mem-append.1 ∣ inr mem-cons_self ∣₁)), inl refl) ∣₁

  -- What suppression promises of the kept objects: they are candidates, no two of them overlap, and
  -- every candidate is kept or overlaps a kept one that does not score less.
  pub record Suppressed (found kept : List (Detection Real)) : Type 0 where
    pub found_ones : (k : Detection Real) → Mem k kept → Mem k found
    pub apart : Apart kept
    pub covers : (d : Detection Real) → Mem d found → Covered kept d

  pub suppress-Suppressed :
      (sort : (Detection Real → Detection Real → Bool)
        → List (Detection Real)
        → List (Detection Real))
      → (found : List (Detection Real)) → Sorts sort (scores_higher f)
      → Suppressed found (suppress f sort nms found)
  unfolding suppress
  suppress-Suppressed sort found h = record {
    found_ones = λ k m.
        Or.elim (hlevel) (select_from-mem k (sort (scores_higher f) found) [] m)
          (λ n. absurd (not-mem-nil n)) (λ n. (Perm.mem_iff (h.same found)).0 n);
    apart = select_from-Apart (sort (scores_higher f) found) [] Pairwise.nil;
    covers = λ d m.
        select_from-Covered (sort (scores_higher f) found) [] (λ k e n. absurd (not-mem-nil n))
          (h.in_order found) d ((Perm.mem_iff (h.same found)).1 m);
  }
