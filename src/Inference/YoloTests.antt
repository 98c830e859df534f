-- ===== src/Inference/YoloTests.antt =====
-- Runs of the selection over whole numbers in the place of `float`, and its theorem there.
use mathlib.Core.Logic.Or
use mathlib.Core.List.{Mem, Perm, Pairwise, mem-cons, not-mem-nil}
use mathlib.Core.List.Perm
use my_tiny_network_library.Base.{
  ℕ, min, ◌≤◌, length, none, codes, ◌+◌, ◌-◌, ◌*◌, ◌/◌, ◌≡◌, refl, subst, arith, Bool, true, false,
  List, [], ◌∷◌, some, pos, same_int, if◌then◌else◌, ltb,
}
use my_tiny_network_library.Inference.Types.{Detection, ImageData}
use my_tiny_network_library.Inference.Yolo.Scale.{Decoder, Rounding, preprocess}
use my_tiny_network_library.Inference.Yolo.Scale.Inside.{Decodes, Fits, Scaled, preprocess-Scaled}
use my_tiny_network_library.Inference.Yolo.{
  Floats, PreprocessedImage, candidate_count, candidates, scores_higher, suppress, select_from,
  suppressed, overlaps, intersection_over_union, postprocess,
}
use my_tiny_network_library.Inference.Yolo.Suppress.{Sorts, Suppressed}
use my_tiny_network_library.Inference.Yolo.Detected.{Counts, postprocess-Suppressed}

abbrev whole : Floats ℕ
whole = record {
  number = λ digits places. digits;
  add = λ a b. a + b;
  sub = λ a b. a - b;
  mul = λ a b. a * b;
  div = λ a b. a * 100 / b;
  lt = ltb;
}

abbrev Found : Type 0
Found = Detection ℕ

abbrev insert : (Found → Found → Bool) → Found → List Found → List Found
insert before d [] = d ∷ []
insert before d (e ∷ ds) =
    let rest = insert before d ds in if before e d then e ∷ rest else d ∷ e ∷ ds

abbrev sorted : (Found → Found → Bool) → List Found → List Found
sorted before [] = []
sorted before (d ∷ ds) = insert before d (sorted before ds)

insert-same : (d : Found) (ds : List Found) → Perm (insert (scores_higher whole) d ds) (d ∷ ds)
insert-same d [] = Perm.refl (d ∷ [])
insert-same d (e ∷ ds) = go _ refl (insert-same d ds)
  where
    go :
        (b : Bool)
        → scores_higher whole e d ≡ b
        → Perm (insert (scores_higher whole) d ds) (d ∷ ds)
        → Perm (if b then e ∷ insert (scores_higher whole) d ds else d ∷ e ∷ ds) (d ∷ e ∷ ds)
    go true h p = Perm.trans (Perm.cons e p) (Perm.swap d e ds)
    go false h p = Perm.refl (d ∷ e ∷ ds)

sorted-same : (ds : List Found) → Perm (sorted (scores_higher whole) ds) ds
sorted-same [] = Perm.refl []
sorted-same (d ∷ ds) =
    Perm.trans (insert-same d (sorted (scores_higher whole) ds)) (Perm.cons d (sorted-same ds))

abbrev InOrder : List Found → Type 0
InOrder = Pairwise (λ a b. scores_higher whole b a ≡ false)

higher_asymm : (a b : Found) → scores_higher whole a b ≡ true → scores_higher whole b a ≡ false
unfolding scores_higher
higher_asymm a b h = ground (arith, h)

not_higher_trans :
    (a b c : Found)
    → scores_higher whole a b ≡ false
    → scores_higher whole b c ≡ false
    → scores_higher whole a c ≡ false
unfolding scores_higher
not_higher_trans a b c h k = ground (arith, h, k)

insert-InOrder :
    (d : Found) (ds : List Found) → InOrder ds → InOrder (insert (scores_higher whole) d ds)
insert-InOrder d [] h = Pairwise.cons (λ e m. absurd (not-mem-nil m)) Pairwise.nil
insert-InOrder d (e ∷ ds) (Pairwise.cons first rest) = go _ refl (insert-InOrder d ds rest)
  where
    go :
        (b : Bool)
        → scores_higher whole e d ≡ b
        → InOrder (insert (scores_higher whole) d ds)
        → InOrder (if b then e ∷ insert (scores_higher whole) d ds else d ∷ e ∷ ds)
    go true h k =
        Pairwise.cons
          (λ a m.
            Or.elim (hlevel) (mem-cons.0 ((Perm.mem_iff (insert-same d ds)).0 m))
              (λ same. rw same (higher_asymm e d h)) (λ n. first a n))
          k
    go false h k =
        Pairwise.cons
          (λ a m.
            Or.elim (hlevel) (mem-cons.0 m) (λ same. rw same h)
              (λ n. not_higher_trans a e d (first a n) h))
          (Pairwise.cons first rest)

sorted-InOrder : (ds : List Found) → InOrder (sorted (scores_higher whole) ds)
sorted-InOrder [] = Pairwise.nil
sorted-InOrder (d ∷ ds) = insert-InOrder d (sorted (scores_higher whole) ds) (sorted-InOrder ds)

sorted-Sorts : Sorts sorted (scores_higher whole)
sorted-Sorts = record { same = sorted-same; in_order = sorted-InOrder }

abbrev box : ℕ → ℕ → ℕ → ℕ → Found
box class score left right = record {
  class_id = pos class;
  label = [];
  confidence = score;
  x1 = left;
  y1 = 0;
  x2 = right;
  y2 = 10;
}

-- the second box overlaps the third one, which scores higher; the first is of another class
suppress_three :
    suppress whole sorted 45 (box 1 5 0 10 ∷ box 0 6 1 11 ∷ box 0 8 0 10 ∷ [])
    ≡ box 0 8 0 10 ∷ box 1 5 0 10 ∷ []
unfolding suppress select_from suppressed overlaps intersection_over_union scores_higher same_int
suppress_three = refl

abbrev flat : PreprocessedImage ℕ
flat = record {
  tensor = [];
  original_width = 640;
  original_height = 640;
  scale = 1;
  pad_x = 0;
  pad_y = 0;
}

postprocess-Suppressed_example :
    let kept = postprocess whole sorted (some (λ i. i)) 705600 flat 25 45 in
    Suppressed whole 45 (candidates whole (λ i. i) flat 25 candidate_count 0) kept
    × ((d : Found) → Mem d kept → Counts whole (λ i. i) flat 25 d)
postprocess-Suppressed_example =
    postprocess-Suppressed whole (λ i. i) flat 25 sorted 45 sorted-Sorts

-- numbers are hundredths where they are rounded
abbrev hundredths : Rounding ℕ
hundredths = record { round = λ r. min 640 (r / 100); floor = λ r. r; floor_int = λ r. pos r }

-- every image is one grey pixel
abbrev grey : Decoder
grey = record {
  info = λ bytes. some (1, 1);
  load = λ bytes. some (9 ∷ 9 ∷ 9 ∷ [], 1, 1);
  failure_reason = none;
}

grey-Decodes : Decodes grey
grey-Decodes bytes pixels width height e =
    let loaded : List ℕ × ℕ × ℕ = (9 ∷ 9 ∷ 9 ∷ [], 1, 1) in
    let result : List ℕ × ℕ × ℕ = (pixels, width, height) in
    let same : loaded ≡ result = cc e in
    subst (λ r. (1 ≤ r.1) × (1 ≤ r.2) × (length r.0 ≡ r.1 * r.2 * 3)) same
      (omega arith, omega arith, refl)

hundredths-Fits : Fits whole hundredths
hundredths-Fits width height wide high = (omega arith, omega arith)

abbrev picture : ImageData
picture = record {
  encoded = some (codes "png");
  file_name = codes "a.png";
  content_type = codes "image/png";
}

preprocess-Scaled_example : Scaled whole hundredths (preprocess whole hundredths grey picture flat)
preprocess-Scaled_example =
    preprocess-Scaled whole hundredths flat hundredths-Fits grey picture grey-Decodes
