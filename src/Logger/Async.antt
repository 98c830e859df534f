-- ===== src/Logger/Async.antt =====
-- src/logger/AsyncLogging.h and AsyncLogging.cc. Memory that `new` gives is an argument.
pub mod Order
pub mod Pieces
pub mod Turns
use my_tiny_network_library.Base.{
  ℕ, ◌<◌, ◌≡◌, ◌≢◌, List, [], ◌∷◌, ◌++◌, Option, none, some, if◌then◌else◌, ltb, Bytes, length,
  take,
}
use my_tiny_network_library.Logger.Fixed.{
  FixedBuffer, IsFixed, fresh, avail, append, reset, written,
}
use my_tiny_network_library.Logger.Fixed

-- what the mutex protects
pub record Front : Type 0 where
  pub current : FixedBuffer
  pub next : Option FixedBuffer
  pub buffers : List FixedBuffer

-- the variables of `threadFunc`, with the bytes that it has handed to the log file
pub record Back : Type 0 where
  pub new_1 : Option FixedBuffer
  pub new_2 : Option FixedBuffer
  pub to_write : List FixedBuffer
  pub output : List Bytes

unfoldable pub init : Bytes → Bytes → Front
init raw raw' = record { current = fresh raw; next = some (fresh raw'); buffers = [] }

unfoldable pub init_back : Bytes → Bytes → Back
init_back raw raw' = record {
  new_1 = some (fresh raw);
  new_2 = some (fresh raw');
  to_write = [];
  output = [];
}

-- the buffer to go on with when the current one is full
abbrev pub spare : Bytes → Option FixedBuffer → FixedBuffer
spare raw none = fresh raw
spare raw (some b) = b

-- `append`
unfoldable pub log : Bytes → Bytes → Front → Front
log raw line s =
    if ltb (length line) (avail s.current)
    then record s { current = append line s.current }
    else record {
      current = append line (spare raw s.next);
      next = none;
      buffers = s.buffers ++ s.current ∷ [];
    }

-- the buffer for `nextBuffer_`, and what is left of `newBuffer2`
abbrev pub refill :
    Option FixedBuffer → Option FixedBuffer → Option FixedBuffer × Option FixedBuffer
refill none new_2 = (new_2, none)
refill (some b) new_2 = (some b, new_2)

-- `threadFunc` under the mutex; `none` where `newBuffer1` is null
abbrev pub collect_with : Option FixedBuffer → Front → Back → Option (Front × Back)
collect_with none f b = none
collect_with (some fresh_1) f b =
    let (next, new_2) = refill f.next b.new_2 in
    some (
      record { current = fresh_1; next = next; buffers = b.to_write },
      record b { new_1 = none; new_2 = new_2; to_write = f.buffers ++ f.current ∷ [] },
    )

unfoldable pub collect : Front → Back → Option (Front × Back)
collect f b = collect_with b.new_1 f b

-- what the file gets: `data()` up to `length()`
unfoldable pub write_all : List FixedBuffer → List Bytes
write_all [] = []
write_all (b ∷ buffers) = take (Fixed.fixed_length b) b.data_ ∷ write_all buffers

-- `back()` and `pop_back()`; `none` on an empty vector
unfoldable pub pop_back : List FixedBuffer → Option (FixedBuffer × List FixedBuffer)
pop_back [] = none
pop_back (b ∷ []) = some (b, [])
pop_back (b ∷ c ∷ buffers) = elim (pop_back (c ∷ buffers)) [
  | none ↦ none
  | some (last, front) ↦ some (last, b ∷ front)
]

abbrev pub taken_back :
    Option (FixedBuffer × List FixedBuffer) → Option (Option FixedBuffer × List FixedBuffer)
taken_back none = none
taken_back (some (b, buffers)) = some (some (reset b), buffers)

-- a new buffer is given back where it was used
abbrev pub give_back :
    Option FixedBuffer → List FixedBuffer → Option (Option FixedBuffer × List FixedBuffer)
give_back (some b) buffers = some (some b, buffers)
give_back none buffers = taken_back (pop_back buffers)

abbrev pub restock_2 : Back → Option (Option FixedBuffer × List FixedBuffer) → Option Back
restock_2 b none = none
restock_2 b (some (new_2, buffers)) = some (record b { new_2 = new_2; to_write = [] })

abbrev pub restock_1 : Back → Option (Option FixedBuffer × List FixedBuffer) → Option Back
restock_1 b none = none
restock_1 b (some (new_1, buffers)) =
    restock_2 (record b { new_1 = new_1 }) (give_back b.new_2 buffers)

-- `threadFunc` behind the mutex
unfoldable pub write_out : Back → Option Back
write_out b =
    restock_1 (record b { output = b.output ++ write_all b.to_write })
      (give_back b.new_1 (take 2 b.to_write))
