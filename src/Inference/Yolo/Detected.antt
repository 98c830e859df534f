-- ===== src/Inference/Yolo/Detected.antt =====
-- What `postprocess` hands out.
use mathlib.Core.Logic.Or
use mathlib.Core.List.{Mem, mem-cons, mem-append, not-mem-nil}
use my_tiny_network_library.Base.{
  ℕ, zero, suc, ◌+◌, ◌*◌, ◌≡◌, refl, subst, sym, Bool, true, false, List, [], ◌∷◌, some,
  if◌then◌else◌,
}
use my_tiny_network_library.Inference.Types.{Detection}
use my_tiny_network_library.Inference.Yolo.{
  Floats, PreprocessedImage, candidate_count, best_class, detection, has_area, candidate,
  candidates, scores_higher, postprocess,
}
use my_tiny_network_library.Inference.Yolo.Suppress.{Sorts, Suppressed, suppress-Suppressed}

module _ {Real : Type 0} (f : Floats Real) (output : ℕ → Real) (image : PreprocessedImage Real)
    (threshold : Real) where
  -- a box with a width and a height, and a score that is not below the threshold
  abbrev pub Counts : Detection Real → Type 0
  Counts d = (f.lt d.confidence threshold ≡ false) × (has_area f d ≡ true)

  candidate-Counts :
      (i : ℕ) (d : Detection Real) → Mem d (candidate f output image threshold i) → Counts d
  unfolding candidate detection
  candidate-Counts i d m = go _ _ refl refl m
    where
      best : ℕ × Real
      best = best_class f output i 79 1 (0, output (4 * candidate_count + i))

      found : Detection Real
      found = detection f output image i best

      go :
          (low area : Bool)
          → f.lt best.1 threshold ≡ low
          → has_area f found ≡ area
          → Mem d (if low then [] else if area then found ∷ [] else [])
          → Counts d
      go true area e k n = absurd (not-mem-nil n)
      go false false e k n = absurd (not-mem-nil n)
      go false true e k n =
          Or.elim (hlevel) (mem-cons.0 n) (λ same. subst Counts (sym same) (e, k))
            (λ o. absurd (not-mem-nil o))

  candidates-Counts :
      (n i : ℕ) (d : Detection Real) → Mem d (candidates f output image threshold n i) → Counts d
  unfolding candidates
  candidates-Counts zero i d m = absurd (not-mem-nil m)
  candidates-Counts (suc n) i d m =
      Or.elim (hlevel) (mem-append.0 m) (candidate-Counts i d) (candidates-Counts n (suc i) d)

  -- Of the candidates in the tensor, `postprocess` keeps some, each with a score that is not below the
  -- threshold and a box with a width and a height. No two of one class that it keeps overlap by more
  -- than the limit, and every candidate is kept or overlaps one so that is kept and does not score
  -- less; for a sort that permutes its list into the order asked for.
  pub postprocess-Suppressed :
      (sort : (Detection Real → Detection Real → Bool)
        → List (Detection Real)
        → List (Detection Real))
      (nms : Real)
      → Sorts sort (scores_higher f)
      → let kept = postprocess f sort (some output) (84 * candidate_count) image threshold nms in
        Suppressed f nms (candidates f output image threshold candidate_count 0) kept
        × ((d : Detection Real) → Mem d kept → Counts d)
  unfolding postprocess
  postprocess-Suppressed sort nms h =
      let s =
        suppress-Suppressed f nms sort (candidates f output image threshold candidate_count 0) h in
      (s, λ d m. candidates-Counts candidate_count 0 d (s.found_ones d m))
