-- ===== src/Inference/Metrics/Buckets.antt =====
-- The histograms of the metrics are cumulative.
use my_tiny_network_library.Base.{
  ℕ, zero, suc, add_size, size_mod, ◌<◌, ◌≤◌, ◌≡◌, ◌⊎◌, inl, inr, refl, sym, subst, arith, Bool,
  true, false, List, [], ◌∷◌, replicate, length, length-replicate, Bool-cases,
}
use my_tiny_network_library.Inference.Metrics.{Histogram, observe_buckets, sized, observe_one}

-- counts that go up from one number to another
abbrev pub Rising : ℕ → List ℕ → ℕ → Type 0
Rising low [] top = low ≤ top
Rising low (n ∷ counts) top = (low ≤ n) × Rising n counts top

module _ {Real : Type 0} (le : Real → Real → Bool) where
  abbrev pub Ascending : List Real → Type 0
  Ascending [] = Unit
  Ascending (b ∷ []) = Unit
  Ascending (b ∷ c ∷ bounds) = (le b c ≡ true) × Ascending (c ∷ bounds)

  abbrev pub Transitive : Type 0
  Transitive = (a b c : Real) → le a b ≡ true → le b c ≡ true → le a c ≡ true

zeros-Rising : (n top : ℕ) → Rising 0 (replicate n 0) top
zeros-Rising zero top = omega arith
zeros-Rising (suc n) top = (omega arith, zeros-Rising n top)

-- The counts of a histogram are none yet or one for each bound, and go up to the number of all.
pub record IsHistogram {Real : Type 0} (bounds : List Real) (h : Histogram Real) : Type 0 where
  pub shape : (h.buckets ≡ []) ⊎ (length h.buckets ≡ length bounds)
  pub rising : Rising 0 h.buckets h.count

module _ {Real : Type 0} (start : Real) (add : Real → Real → Real) (le : Real → Real → Bool)
    (thousandth : Real → Real) (bounds : List Real) where
  one_more : (n : ℕ) → suc n < size_mod → add_size n 1 ≡ suc n
  unfolding add_size
  one_more n small = omega (arith, small)

  -- no count is above the number of all
  Rising-top : (low top : ℕ) (counts : List ℕ) → Rising low counts top → low ≤ top
  Rising-top low top [] h = h
  Rising-top low top (n ∷ counts) h = omega (arith, h.0, Rising-top n top counts h.1)

  observed : Real → List Real → List ℕ → List ℕ
  observed = observe_buckets start add le thousandth bounds

  observed-here :
      (seconds b : Real) (bs : List Real) (n : ℕ) (counts : List ℕ)
      → le seconds b ≡ true
      → suc n < size_mod
      → observed seconds (b ∷ bs) (n ∷ counts) ≡ suc n ∷ observed seconds bs counts
  unfolding observed observe_buckets
  observed-here seconds b bs n counts e small = rw (e, one_more n small) refl

  observed-not :
      (seconds b : Real) (bs : List Real) (n : ℕ) (counts : List ℕ)
      → le seconds b ≡ false
      → observed seconds (b ∷ bs) (n ∷ counts) ≡ n ∷ observed seconds bs counts
  unfolding observed observe_buckets
  observed-not seconds b bs n counts e = rw e refl

  room : (n top : ℕ) (counts : List ℕ) → suc top < size_mod → Rising n counts top → suc n < size_mod
  room n top counts small h = omega (arith, small, Rising-top n top counts h)

  -- behind a bound that is reached, all counts go up
  observed-all :
      (seconds b : Real) (bs : List Real) (low top : ℕ) (counts : List ℕ)
      → Transitive le
      → Ascending le (b ∷ bs)
      → le seconds b ≡ true
      → length counts ≡ length bs
      → suc top < size_mod
      → Rising low counts top
      → Rising (suc low) (observed seconds bs counts) (suc top)
  unfolding observed observe_buckets
  observed-all seconds b [] low top [] t a e k small h = omega (arith, h)
  observed-all seconds b [] low top (n ∷ counts) t a e k small h = absurd (omega (arith, k))
  observed-all seconds b (c ∷ bs) low top [] t a e k small h = absurd (omega (arith, k))
  observed-all seconds b (c ∷ bs) low top (n ∷ counts) t a e k small h =
      let reached = t seconds b c e a.0 in
      subst (λ l. Rising (suc low) l (suc top))
        (sym (observed-here seconds c bs n counts reached (room n top counts small h.1)))
        (
          omega (arith, h.0),
          observed-all seconds c bs n top counts t a.1 reached (omega (arith, k)) small h.1,
        )

  tail-Ascending : (b : Real) (bs : List Real) → Ascending le (b ∷ bs) → Ascending le bs
  tail-Ascending b [] h = tt
  tail-Ascending b (c ∷ bs) h = h.1

  observed-Rising :
      (seconds : Real) (bs : List Real) (low top : ℕ) (counts : List ℕ)
      → Transitive le
      → Ascending le bs
      → length counts ≡ length bs
      → suc top < size_mod
      → Rising low counts top
      → Rising low (observed seconds bs counts) (suc top)
  unfolding observed observe_buckets
  observed-Rising seconds [] low top [] t a k small h = omega (arith, h)
  observed-Rising seconds [] low top (n ∷ counts) t a k small h = absurd (omega (arith, k))
  observed-Rising seconds (b ∷ bs) low top [] t a k small h = absurd (omega (arith, k))
  observed-Rising seconds (b ∷ bs) low top (n ∷ counts) t a k small h =
      elim (Bool-cases (le seconds b)) [
        | inl e ↦
            subst (λ l. Rising low l (suc top))
              (sym (observed-here seconds b bs n counts e (room n top counts small h.1)))
              (
                omega (arith, h.0),
                observed-all seconds b bs n top counts t a e (omega (arith, k)) small h.1,
              )
        | inr e ↦
            subst (λ l. Rising low l (suc top)) (sym (observed-not seconds b bs n counts e))
              (
                h.0,
                observed-Rising seconds bs n top counts t (tail-Ascending b bs a) (omega (arith, k))
                    small h.1,
              )
      ]

  length-observed :
      (seconds : Real) (bs : List Real) (counts : List ℕ)
      → length counts ≡ length bs
      → length (observed seconds bs counts) ≡ length bs
  unfolding observed observe_buckets
  length-observed seconds [] counts k = k
  length-observed seconds (b ∷ bs) [] k = k
  length-observed seconds (b ∷ bs) (n ∷ counts) k =
      omega (arith, length-observed seconds bs counts (omega (arith, k)))

  sized-Rising :
      (counts : List ℕ) (top : ℕ)
      → (counts ≡ []) ⊎ (length counts ≡ length bounds)
      → Rising 0 counts top
      → (length (sized start add le thousandth bounds counts) ≡ length bounds)
        × Rising 0 (sized start add le thousandth bounds counts) top
  sized-Rising [] top shape h =
      (length-replicate (length bounds) 0, zeros-Rising (length bounds) top)
  sized-Rising (n ∷ counts) top (inl e) h = absurd (cc e)
  sized-Rising (n ∷ counts) top (inr k) h = (k, h)

  -- A histogram stays cumulative when a time is observed: there is a count for each bound, none of them
  -- is larger than the next, and none larger than the number of all observations; for an order of
  -- numbers that is transitive, bounds in ascending order, and a number of observations that 64 bits
  -- still hold.
  pub observe_one-IsHistogram :
      (seconds : Real) (h : Histogram Real)
      → Transitive le
      → Ascending le bounds
      → IsHistogram bounds h
      → suc h.count < size_mod
      → let h' = observe_one start add le thousandth bounds seconds h in
        (length h'.buckets ≡ length bounds) × IsHistogram bounds h'
  unfolding observe_one observed
  observe_one-IsHistogram seconds h t a v small =
      let (size, rising) = sized-Rising h.buckets h.count v.shape v.rising in
      let full = length-observed seconds bounds _ size in
      (
        full,
        record {
          shape = inr full;
          rising =
              subst (Rising 0 _) (sym (one_more h.count small))
                (observed-Rising seconds bounds 0 h.count _ t a size small rising);
        },
      )
