-- ===== src/Logger/Fixed.antt =====
-- src/logger/FixedBuffer.h. `data` is the array of SIZE bytes, and `cur` the place of the pointer in it.
use my_tiny_network_library.Base.{
  ℕ, ◌+◌, ◌-◌, ◌<◌, ◌≤◌, ◌≡◌, sym, arith, ◌++◌, if◌then◌else◌, ltb, Bytes, length, take, drop,
  length-append, length-take, length-drop, take-append_eq, subst,
}

pub record FixedBuffer : Type 0 where
  pub data_ : Bytes
  pub cur : ℕ

-- a new buffer, over memory that holds anything
unfoldable pub fresh : Bytes → FixedBuffer
fresh raw = record { data_ = raw; cur = 0 }

unfoldable pub avail : FixedBuffer → ℕ
avail b = length b.data_ - b.cur

-- `length()` is the capacity, not what was written.
unfoldable pub fixed_length : FixedBuffer → ℕ
fixed_length b = length b.data_

-- `memcpy` to `cur_`
unfoldable pub append : Bytes → FixedBuffer → FixedBuffer
append text b =
    if ltb (length text) (avail b)
    then record {
      data_ = (take b.cur b.data_ ++ text) ++ drop (b.cur + length text) b.data_;
      cur = b.cur + length text;
    }
    else b

unfoldable pub reset : FixedBuffer → FixedBuffer
reset b = record b { cur = 0 }

-- what was written into the buffer
abbrev pub written : FixedBuffer → Bytes
written b = take b.cur b.data_

pub record IsFixed (size : ℕ) (b : FixedBuffer) : Type 0 where
  pub sized : length b.data_ ≡ size
  pub within : b.cur ≤ size

pub append-room :
    (text : Bytes) (b : FixedBuffer)
    → length text < avail b
    → append text b ≡ (record {
      data_ = (take b.cur b.data_ ++ text) ++ drop (b.cur + length text) b.data_;
      cur = b.cur + length text;
    })
unfolding append
append-room text b h = ground arith

-- where the text fits, it stands behind what was written, and the array keeps its size
pub append-IsFixed :
    (size : ℕ) (text : Bytes) (b : FixedBuffer)
    → IsFixed size b
    → length text < avail b
    → IsFixed size (append text b) × (written (append text b) ≡ written b ++ text)
unfolding avail
append-IsFixed size text b v h =
    let front : length (take b.cur b.data_ ++ text) ≡ b.cur + length text = omega (
      arith,
      length-append (take b.cur b.data_) text,
      length-take b.cur b.data_,
      v.sized,
      v.within,
    ) in
    let rest = drop (b.cur + length text) b.data_ in
    subst (λ a. IsFixed size a × (written a ≡ written b ++ text)) (sym (append-room text b h))
      (
        record {
          sized = omega (
            arith,
            front,
            h,
            v.sized,
            length-append (take b.cur b.data_ ++ text) rest,
            length-drop (b.cur + length text) b.data_,
          );
          within = omega (arith, h, v.sized, v.within);
        },
        take-append_eq (take b.cur b.data_ ++ text) rest (b.cur + length text) front,
      )
