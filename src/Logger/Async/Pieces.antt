-- ===== src/Logger/Async/Pieces.antt =====
-- What the file gets of the buffers.
use my_tiny_network_library.Base.{
  ◌≡◌, refl, sym, ap, ◌∙◌, subst, arith, List, [], ◌∷◌, ◌++◌, append_assoc, Bytes, length, drop,
  take-all, take-drop, take,
}
use my_tiny_network_library.Logger.Fixed.{FixedBuffer, written, fixed_length}
use my_tiny_network_library.Logger.Async.{write_all}
use my_tiny_network_library.Logger.Async.Order.{
  all_written, texts_of, together, Heads, no_piece, piece,
}

pub Heads-append : (a b c d : List Bytes) → Heads a b → Heads c d → Heads (a ++ c) (b ++ d)
Heads-append _ _ c d no_piece k = k
Heads-append _ _ c d (piece text rest h) k = piece text rest (Heads-append _ _ c d h k)

-- the whole array goes to the file, and what was written stands first in it
pub write_all-Heads : (buffers : List FixedBuffer) → Heads (texts_of buffers) (write_all buffers)
unfolding write_all fixed_length
write_all-Heads [] = no_piece
write_all-Heads (b ∷ buffers) =
    subst (λ o. Heads (texts_of (b ∷ buffers)) (o ∷ write_all buffers)) (sym whole)
      (piece (written b) (drop b.cur b.data_) (write_all-Heads buffers))
  where
    whole : take (length b.data_) b.data_ ≡ take b.cur b.data_ ++ drop b.cur b.data_
    whole = take-all (length b.data_) b.data_ (omega arith) ∙ sym (take-drop b.cur b.data_)

pub together-texts_of :
    (texts : List Bytes) (buffers : List FixedBuffer)
    → together (texts ++ texts_of buffers) ≡ together texts ++ all_written buffers
together-texts_of [] [] = refl
together-texts_of [] (b ∷ buffers) = ap (λ l. written b ++ l) (together-texts_of [] buffers)
together-texts_of (text ∷ texts) buffers =
    ap (λ l. text ++ l) (together-texts_of texts buffers)
    ∙ sym (append_assoc text (together texts) (all_written buffers))
