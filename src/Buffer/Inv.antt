-- ===== src/Buffer/Inv.antt =====
-- The representation invariant of the buffer: the indices are in order and inside the vector, so
-- that no word wraps and no range leaves the storage.
use my_tiny_network_library.Base.{
  ℕ, ◌+◌, ◌-◌, ◌≤◌, ◌≡◌, refl, sym, ap, ◌∙◌, Bool-cases, inl, inr, arith, if◌then◌else◌, ltb, leb,
  ltb→le, ltb→lt, length, replicate, slice, splice, Bytes, length-append, length-replicate,
  length-splice, length-slice, length-take, take-all, slice-append_le, slice-splice_self, sub_size,
  add_size-eq, sub_size-eq, max_size,
}
use my_tiny_network_library.Buffer.{
  Buffer, cheap_prepend, init, readable_bytes, writable_bytes, prependable_bytes, retrieve,
  retrieve_all, resize, make_space, ensure_writeable_bytes,
}

pub record IsValid (b : Buffer) : Type 0 where
  pub front : cheap_prepend ≤ b.reader_index
  pub order : b.reader_index ≤ b.writer_index
  pub room : b.writer_index ≤ length b.buffer
  pub small : length b.buffer ≤ max_size

pub readable_bytes-eq :
    (b : Buffer) → IsValid b → readable_bytes b ≡ b.writer_index - b.reader_index
unfolding readable_bytes
readable_bytes-eq b v = sub_size-eq b.writer_index b.reader_index v.order (omega arith)

pub writable_bytes-eq :
    (b : Buffer) → IsValid b → writable_bytes b ≡ length b.buffer - b.writer_index
unfolding writable_bytes
writable_bytes-eq b v = sub_size-eq (length b.buffer) b.writer_index v.room (omega arith)

-- The readable, writable and prependable parts make up the storage.
pub three_parts :
    (b : Buffer)
    → IsValid b
    → prependable_bytes b + readable_bytes b + writable_bytes b ≡ length b.buffer
unfolding prependable_bytes
three_parts b v = omega (arith, readable_bytes-eq b v, writable_bytes-eq b v)

-- A buffer is valid when it is made.
pub init-IsValid : (fd size : ℕ) → cheap_prepend + size ≤ max_size → IsValid (init fd size)
unfolding init
init-IsValid fd size h = omega (arith, length-replicate {A = ℕ} (cheap_prepend + size) 0)

pub retrieve_all-IsValid : (b : Buffer) → IsValid b → IsValid (retrieve_all b)
unfolding retrieve_all
retrieve_all-IsValid b v = omega arith

pub retrieve-IsValid : (n : ℕ) (b : Buffer) → IsValid b → IsValid (retrieve n b)
unfolding retrieve
retrieve-IsValid n b v =
    ground (arith, readable_bytes-eq b v, retrieve_all-IsValid b v, add_size-eq b.reader_index n)

pub length-resize : (n : ℕ) (xs : Bytes) → n ≤ max_size → length xs ≤ n → length (resize n xs) ≡ n
unfolding resize
length-resize n xs h k = ground (
  arith,
  length-take n xs,
  sub_size-eq n (length xs),
  length-append xs (replicate (sub_size n (length xs)) 0),
  length-replicate {A = ℕ} (sub_size n (length xs)) 0,
)

-- the readable bytes
abbrev pub contents : Buffer → Bytes
contents b = slice b.reader_index (b.writer_index - b.reader_index) b.buffer

pub length-contents :
    (b : Buffer) → IsValid b → length (contents b) ≡ b.writer_index - b.reader_index
length-contents b v =
    length-slice b.reader_index (b.writer_index - b.reader_index) b.buffer (omega arith)

pub length-contents-readable : (b : Buffer) → IsValid b → length (contents b) ≡ readable_bytes b
length-contents-readable b v = length-contents b v ∙ sym (readable_bytes-eq b v)

-- `buffer_.resize(writerIndex_ + len)`
abbrev grown : ℕ → Buffer → Buffer
grown len b = record b { buffer = resize (b.writer_index + len) b.buffer }

-- the readable bytes moved to the front
abbrev moved_down : Buffer → Buffer
moved_down b = record b {
  buffer = splice b.buffer cheap_prepend (contents b);
  reader_index = cheap_prepend;
  writer_index = cheap_prepend + (b.writer_index - b.reader_index);
}

make_space-eq :
    (len : ℕ) (b : Buffer)
    → IsValid b
    → b.writer_index + len ≤ max_size
    → make_space len b ≡ (
        if ltb (length b.buffer - b.writer_index + b.reader_index) (len + cheap_prepend)
        then grown len b
        else moved_down b)
unfolding make_space
make_space-eq len b v fits = rw (
  sub_size-eq b.writer_index b.reader_index v.order (omega arith),
  sub_size-eq (length b.buffer) b.writer_index v.room (omega arith),
  add_size-eq (length b.buffer - b.writer_index) b.reader_index (omega arith),
  add_size-eq len cheap_prepend (omega arith),
  add_size-eq b.writer_index len (omega arith),
  add_size-eq cheap_prepend (b.writer_index - b.reader_index) (omega arith),
)

slice-resize :
    (i n k : ℕ) (xs : Bytes)
    → i + n ≤ length xs
    → length xs ≤ k
    → slice i n (resize k xs) ≡ slice i n xs
unfolding resize
slice-resize i n k xs h le = elim (Bool-cases (leb k (length xs))) [
  | inl e ↦ rw (e, take-all k xs le)
  | inr e ↦ rw e (slice-append_le xs (replicate (sub_size k (length xs)) 0) i n h)
]

-- What `makeSpace` achieves: a valid buffer with the same readable bytes and room for `len` more.
pub record HasSpace (len : ℕ) (b c : Buffer) : Type 0 where
  pub valid : IsValid c
  pub same : contents c ≡ contents b
  pub space : c.writer_index + len ≤ length c.buffer

module _ (len : ℕ) (b : Buffer) (v : IsValid b) where
  grown-HasSpace :
      length b.buffer ≤ b.writer_index + len
      → b.writer_index + len ≤ max_size
      → HasSpace len b (grown len b)
  grown-HasSpace h fits = record {
    valid = record {
      front = v.front;
      order = v.order;
      room = omega (arith, long);
      small = omega (arith, long);
    };
    same =
        slice-resize b.reader_index (b.writer_index - b.reader_index) (b.writer_index + len)
          b.buffer (omega arith) h;
    space = omega (arith, long);
  }
    where
      long : length (resize (b.writer_index + len) b.buffer) ≡ b.writer_index + len
      long = length-resize (b.writer_index + len) b.buffer fits h

  moved_down-HasSpace :
      len + cheap_prepend ≤ length b.buffer - b.writer_index + b.reader_index
      → HasSpace len b (moved_down b)
  moved_down-HasSpace h = record {
    valid = record {
      front = omega arith;
      order = omega arith;
      room = omega (arith, long);
      small = omega (arith, long);
    };
    same =
        ap (λ k. slice cheap_prepend k (splice b.buffer cheap_prepend (contents b))) count
        ∙ slice-splice_self b.buffer cheap_prepend (b.writer_index - b.reader_index) (contents b)
            (omega arith) (length-contents b v);
    space = omega (arith, long);
  }
    where
      count :
          cheap_prepend + (b.writer_index - b.reader_index) - cheap_prepend
          ≡ b.writer_index - b.reader_index
      count = omega arith

      long : length (splice b.buffer cheap_prepend (contents b)) ≡ length b.buffer
      long = length-splice b.buffer cheap_prepend (contents b) (omega (arith, length-contents b v))

-- `ensureWriteableBytes` gives the room that is asked for, and keeps the readable bytes.
pub ensure_writeable_bytes-HasSpace :
    (len : ℕ) (b : Buffer)
    → IsValid b
    → b.writer_index + len ≤ max_size
    → HasSpace len b (ensure_writeable_bytes len b)
unfolding ensure_writeable_bytes
ensure_writeable_bytes-HasSpace len b v fits = elim (Bool-cases (ltb (writable_bytes b) len)) [
  | inl short ↦
      rw (short, make_space-eq len b v fits)
        (elim (Bool-cases
          (ltb (length b.buffer - b.writer_index + b.reader_index) (len + cheap_prepend))) [
            | inl e ↦ rw e (
                grown-HasSpace len b v (omega (arith, writable_bytes-eq b v, ltb→lt _ _ short))
                  fits)
            | inr e ↦ rw e (moved_down-HasSpace len b v (ltb→le _ _ e))
          ])
  | inr enough ↦ rw enough (record {
    valid = v;
    same = refl;
    space = omega (arith, writable_bytes-eq b v, ltb→le _ _ enough, v.room);
  })
]

-- Making room never moves the writer index up.
pub ensure_writeable_bytes-writer_index :
    (len : ℕ) (b : Buffer)
    → IsValid b
    → b.writer_index + len ≤ max_size
    → (ensure_writeable_bytes len b).writer_index ≤ b.writer_index
unfolding ensure_writeable_bytes
ensure_writeable_bytes-writer_index len b v fits = elim (Bool-cases (ltb (writable_bytes b) len)) [
  | inl short ↦
      rw (short, make_space-eq len b v fits)
        (elim (Bool-cases
          (ltb (length b.buffer - b.writer_index + b.reader_index) (len + cheap_prepend))) [
            | inl e ↦ rw e (omega arith)
            | inr e ↦ rw e (omega (arith, v.front, v.order))
          ])
  | inr enough ↦ rw enough (omega arith)
]
