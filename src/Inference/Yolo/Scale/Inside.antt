-- ===== src/Inference/Yolo/Scale/Inside.antt =====
-- `preprocess` as a whole.
use my_tiny_network_library.Base.{
  ℕ, ◌-◌, ◌*◌, ◌/◌, ◌≤◌, ◌≡◌, refl, sym, subst, arith, Bool, true, false, List, [], ◌∷◌, Option,
  none, some, if◌then◌else◌, leb, Bytes, codes, length, replicate, length-replicate,
}
use my_tiny_network_library.Inference.Types.{ImageData}
use my_tiny_network_library.Inference.Yolo.{Floats, PreprocessedImage}
use my_tiny_network_library.Inference.Yolo.Scale.{
  Decoder, Rounding, Outcome, done, failed, input_size, tensor_size, too_large, scale_of, resized,
  pad, filled, padded, loaded, measured, encoded, preprocess,
}
use my_tiny_network_library.Inference.Yolo.Scale.Fill.{fill-Whole}

-- a picture that was decoded has all its pixels, of three bytes each
abbrev pub Decodes : Decoder → Type 0
Decodes decoder =
    (bytes : Bytes) (pixels : List ℕ) (width height : ℕ)
    → decoder.load bytes ≡ some (pixels, width, height)
    → (1 ≤ width) × (1 ≤ height) × (length pixels ≡ width * height * 3)

module _ {Real : Type 0} (f : Floats Real) (rounding : Rounding Real) where
  -- a side that is scaled to the square does not round to more than its side
  abbrev pub Fits : Type 0
  Fits =
      (width height : ℕ)
      → 1 ≤ width
      → 1 ≤ height
      → (resized f rounding (scale_of f rounding width height) width ≤ input_size)
        × (resized f rounding (scale_of f rounding width height) height ≤ input_size)

  -- the image fails, or its tensor has all its elements
  pub data Scaled : Outcome Real → Type 0 where
    refused : (text : Bytes) → Scaled (failed text)
    scaled :
        (image : PreprocessedImage Real) → length image.tensor ≡ tensor_size → Scaled (done image)

  pad-some : (size : ℕ) → size ≤ input_size → pad f rounding size ≡ some ((input_size - size) / 2)
  pad-some size h = let small : leb size input_size ≡ true = ground (arith, h) in rw small refl

  module _ (before : PreprocessedImage Real) (fits : Fits) where
    padded-Scaled :
        (pixels : List ℕ) (width height : ℕ)
        → 1 ≤ width
        → 1 ≤ height
        → length pixels ≡ width * height * 3
        → let scale = scale_of f rounding width height in
          Scaled (
            padded f rounding before pixels width height
              (pad f rounding (resized f rounding scale width))
              (pad f rounding (resized f rounding scale height)))
    padded-Scaled pixels width height wide high enough =
        let scale = scale_of f rounding width height in
        let w = resized f rounding scale width in
        let h = resized f rounding scale height in
        let small = fits width height wide high in
        let small_w : w ≤ input_size = small.0 in
        let small_h : h ≤ input_size = small.1 in
        let tensor : List Real = replicate tensor_size (f.div (f.number 114 0) (f.number 255 0)) in
        let result =
          fill-Whole f rounding scale pixels width height wide high enough ((input_size - h) / 2)
            ((input_size - w) / 2) w h tensor (omega (arith, small_h)) (omega (arith, small_w))
            (length-replicate tensor_size _) in
        let same : padded f rounding before pixels width height (pad f rounding w)
              (pad f rounding h)
            ≡ filled f rounding before width height scale ((input_size - w) / 2)
                ((input_size - h) / 2) (some result.0) =
          rw (pad-some w small_w, pad-some h small_h, result.1) refl in
        subst Scaled (sym same) (scaled _ result.2)

    loaded-Scaled :
        (decoder : Decoder) (o : Option (List ℕ × ℕ × ℕ)) (bytes : Bytes)
        → Decodes decoder
        → decoder.load bytes ≡ o
        → Scaled (loaded f rounding decoder before o)
    loaded-Scaled decoder none bytes decodes e = refused _
    loaded-Scaled decoder (some (pixels, width, height)) bytes decodes e =
        let d = decodes bytes pixels width height e in padded-Scaled pixels width height d.0 d.1 d.2

    measured-Scaled :
        (decoder : Decoder) (bytes : Bytes) (o : Option (ℕ × ℕ))
        → Decodes decoder
        → Scaled (measured f rounding decoder bytes before o)
    measured-Scaled decoder bytes none decodes = refused _
    measured-Scaled decoder bytes (some (width, height)) decodes =
        go (too_large width height) (loaded-Scaled decoder (decoder.load bytes) bytes decodes refl)
      where
        go :
            (b : Bool)
            → Scaled (loaded f rounding decoder before (decoder.load bytes))
            → Scaled (
                if b
                then failed (codes "invalid image or image dimensions exceed limits")
                else loaded f rounding decoder before (decoder.load bytes))
        go true h = refused _
        go false h = h

    -- `preprocess` reads no byte outside of the decoded picture and writes no element outside of the
    -- tensor, whatever the image holds: it fails, or the tensor that it leaves has all its elements. This is
    -- where stb_image delivers the picture whole, and a scaled side rounds to at most 640.
    pub preprocess-Scaled :
        (decoder : Decoder) (image : ImageData)
        → Decodes decoder
        → Scaled (preprocess f rounding decoder image before)
    unfolding preprocess
    preprocess-Scaled decoder image decodes = go image.encoded
      where
        go : (o : Option Bytes) → Scaled (encoded f rounding decoder o before)
        go none = refused _
        go (some []) = refused _
        go (some (c ∷ bytes)) =
            measured-Scaled decoder (c ∷ bytes) (decoder.info (c ∷ bytes)) decodes
