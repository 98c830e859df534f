-- ===== src/Inference/Yolo.antt =====
-- src/inference/YoloV8Processor.h and YoloV8Processor.cc: from the tensor that a model puts out to the
-- objects detected. `Real` stands for `float`, and `sort` for `std::sort`. The scaling of
-- the image is in Scale.
pub mod Suppress
pub mod Detected
pub mod Scale
use my_tiny_network_library.Base.{
  ℕ, zero, suc, ◌+◌, ◌*◌, ℤ, pos, Bool, true, false, not, ◌&&◌, ◌||◌, List, [], ◌∷◌, ◌++◌, Option,
  none, some, if◌then◌else◌, ◌==◌, Bytes, codes, same_int, get_elem?,
}
use my_tiny_network_library.Inference.Types.{Detection}

-- The operations of `float` that are used: `lt` is `<`, and `number` a constant with its decimal
-- places, or an integer where these are 0.
pub record Floats (Real : Type 0) : Type 0 where
  pub number : ℕ → ℕ → Real
  pub add : Real → Real → Real
  pub sub : Real → Real → Real
  pub mul : Real → Real → Real
  pub div : Real → Real → Real
  pub lt : Real → Real → Bool

pub record PreprocessedImage (Real : Type 0) : Type 0 where
  pub tensor : List Real
  pub original_width : ℕ
  pub original_height : ℕ
  pub scale : Real
  pub pad_x : Real
  pub pad_y : Real

abbrev pub class_count : ℕ
class_count = 80

abbrev pub candidate_count : ℕ
candidate_count = 8400

abbrev pub coco_labels : List Bytes
coco_labels =
    codes "person"
    ∷ codes "bicycle"
    ∷ codes "car"
    ∷ codes "motorcycle"
    ∷ codes "airplane"
    ∷ codes "bus"
    ∷ codes "train"
    ∷ codes "truck"
    ∷ codes "boat"
    ∷ codes "traffic light"
    ∷ codes "fire hydrant"
    ∷ codes "stop sign"
    ∷ codes "parking meter"
    ∷ codes "bench"
    ∷ codes "bird"
    ∷ codes "cat"
    ∷ codes "dog"
    ∷ codes "horse"
    ∷ codes "sheep"
    ∷ codes "cow"
    ∷ codes "elephant"
    ∷ codes "bear"
    ∷ codes "zebra"
    ∷ codes "giraffe"
    ∷ codes "backpack"
    ∷ codes "umbrella"
    ∷ codes "handbag"
    ∷ codes "tie"
    ∷ codes "suitcase"
    ∷ codes "frisbee"
    ∷ codes "skis"
    ∷ codes "snowboard"
    ∷ codes "sports ball"
    ∷ codes "kite"
    ∷ codes "baseball bat"
    ∷ codes "baseball glove"
    ∷ codes "skateboard"
    ∷ codes "surfboard"
    ∷ codes "tennis racket"
    ∷ codes "bottle"
    ∷ codes "wine glass"
    ∷ codes "cup"
    ∷ codes "fork"
    ∷ codes "knife"
    ∷ codes "spoon"
    ∷ codes "bowl"
    ∷ codes "banana"
    ∷ codes "apple"
    ∷ codes "sandwich"
    ∷ codes "orange"
    ∷ codes "broccoli"
    ∷ codes "carrot"
    ∷ codes "hot dog"
    ∷ codes "pizza"
    ∷ codes "donut"
    ∷ codes "cake"
    ∷ codes "chair"
    ∷ codes "couch"
    ∷ codes "potted plant"
    ∷ codes "bed"
    ∷ codes "dining table"
    ∷ codes "toilet"
    ∷ codes "tv"
    ∷ codes "laptop"
    ∷ codes "mouse"
    ∷ codes "remote"
    ∷ codes "keyboard"
    ∷ codes "cell phone"
    ∷ codes "microwave"
    ∷ codes "oven"
    ∷ codes "toaster"
    ∷ codes "sink"
    ∷ codes "refrigerator"
    ∷ codes "book"
    ∷ codes "clock"
    ∷ codes "vase"
    ∷ codes "scissors"
    ∷ codes "teddy bear"
    ∷ codes "hair drier"
    ∷ codes "toothbrush"
    ∷ []

abbrev or_empty : Option Bytes → Bytes
or_empty none = []
or_empty (some text) = text

module _ {Real : Type 0} (f : Floats Real) where
  abbrev pub zero_float : Real
  zero_float = f.number 0 0

  -- `std::max` and `std::min`
  abbrev pub max_float : Real → Real → Real
  max_float a b = if f.lt a b then b else a

  abbrev pub min_float : Real → Real → Real
  min_float a b = if f.lt b a then b else a

  unfoldable pub intersection_over_union : Detection Real → Detection Real → Real
  intersection_over_union a b =
      let left = max_float a.x1 b.x1 in
      let top = max_float a.y1 b.y1 in
      let right = min_float a.x2 b.x2 in
      let bottom = min_float a.y2 b.y2 in
      let side = λ (from to : Real). max_float zero_float (f.sub to from) in
      let intersection = f.mul (side left right) (side top bottom) in
      let area_a = f.mul (side a.x1 a.x2) (side a.y1 a.y2) in
      let area_b = f.mul (side b.x1 b.x2) (side b.y1 b.y2) in
      let total = f.sub (f.add area_a area_b) intersection in
      if f.lt zero_float total then f.div intersection total else zero_float

  -- the loop over the classes from `c` on, `n` of them, with the best one so far
  unfoldable pub best_class : (ℕ → Real) → ℕ → ℕ → ℕ → ℕ × Real → ℕ × Real
  best_class output i zero c best = best
  best_class output i (suc n) c (class, score) =
      let next = output ((4 + c) * candidate_count + i) in
      best_class output i n (suc c) (if f.lt score next then (c, next) else (class, score))

  -- the box of a candidate, with its class and score
  unfoldable pub detection : (ℕ → Real) → PreprocessedImage Real → ℕ → ℕ × Real → Detection Real
  detection output image i (class, score) =
      let center_x = output i in
      let center_y = output (candidate_count + i) in
      let width = output (2 * candidate_count + i) in
      let height = output (3 * candidate_count + i) in
      let half = f.number 5 1 in
      let back = λ (place pad : Real). f.div (f.sub place pad) image.scale in
      record {
        class_id = pos class;
        label = or_empty (get_elem? coco_labels class);
        confidence = score;
        x1 = max_float zero_float (back (f.sub center_x (f.mul width half)) image.pad_x);
        y1 = max_float zero_float (back (f.sub center_y (f.mul height half)) image.pad_y);
        x2 =
            min_float (f.number image.original_width 0)
              (back (f.add center_x (f.mul width half)) image.pad_x);
        y2 =
            min_float (f.number image.original_height 0)
              (back (f.add center_y (f.mul height half)) image.pad_y);
      }

  unfoldable pub has_area : Detection Real → Bool
  has_area d = f.lt d.x1 d.x2 && f.lt d.y1 d.y2

  -- what a candidate adds to the list
  unfoldable pub candidate : (ℕ → Real) → PreprocessedImage Real → Real → ℕ → List (Detection Real)
  candidate output image threshold i =
      let (class, score) = best_class output i 79 1 (0, output (4 * candidate_count + i)) in
      let d = detection output image i (class, score) in
      if f.lt score threshold then [] else if has_area d then d ∷ [] else []

  -- the loop over the candidates from `i` on, `n` of them
  unfoldable pub candidates :
      (ℕ → Real) → PreprocessedImage Real → Real → ℕ → ℕ → List (Detection Real)
  candidates output image threshold zero i = []
  candidates output image threshold (suc n) i =
      candidate output image threshold i ++ candidates output image threshold n (suc i)

  -- a later candidate against a kept one
  unfoldable pub overlaps : Real → Detection Real → Detection Real → Bool
  overlaps nms d kept =
      same_int d.class_id kept.class_id && f.lt nms (intersection_over_union d kept)

  unfoldable pub suppressed : Real → Detection Real → List (Detection Real) → Bool
  suppressed nms d [] = false
  suppressed nms d (kept ∷ selected) =
      let rest = suppressed nms d selected in if overlaps nms d kept then true else rest

  unfoldable pub select_from :
      Real → List (Detection Real) → List (Detection Real) → List (Detection Real)
  select_from nms [] selected = selected
  select_from nms (d ∷ rest) selected =
      select_from nms rest (if suppressed nms d selected then selected else selected ++ d ∷ [])

  -- the order of the sort
  unfoldable pub scores_higher : Detection Real → Detection Real → Bool
  scores_higher a b = f.lt b.confidence a.confidence

  -- The candidates, sorted and selected from.
  unfoldable pub suppress :
      ((Detection Real → Detection Real → Bool) → List (Detection Real) → List (Detection Real))
      → Real
      → List (Detection Real)
      → List (Detection Real)
  suppress sort nms ds = select_from nms (sort scores_higher ds) []

  -- `none` is a null pointer.
  unfoldable pub postprocess :
      ((Detection Real → Detection Real → Bool) → List (Detection Real) → List (Detection Real))
      → Option (ℕ → Real)
      → ℕ
      → PreprocessedImage Real
      → Real
      → Real
      → List (Detection Real)
  postprocess sort none elements image threshold nms = []
  postprocess sort (some output) elements image threshold nms =
      let found = suppress sort nms (candidates output image threshold candidate_count 0) in
      if elements == 84 * candidate_count then found else []
