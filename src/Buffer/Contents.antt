-- ===== src/Buffer/Contents.antt =====
-- The buffer as the queue of its readable bytes: `append` adds at the end, the `retrieve` family
-- takes from the front.
use my_tiny_network_library.Base.{
  ℕ, ◌<◌, true, false, Option, none, some, starts_with, starts_with-find, find_first, find-none,
  ◌+◌, ◌-◌, ◌≤◌, ◌≡◌, refl, sym, ap, ◌∙◌, Bool-cases, inl, inr, arith, ltb, ltb→le, ltb→lt, length,
  take, drop, ◌++◌, [], slice, splice, Bytes, length-splice, take-all, drop-all, slice-splice,
  drop-drop, drop-take, take-take, find, add_size, add_size-eq, max_size,
}
use my_tiny_network_library.Buffer.{
  Buffer, init, readable_bytes, peek, retrieve, retrieve_until, retrieve_as_string,
  retrieve_all_as_string, ensure_writeable_bytes, append, crlf, find_crlf,
}
use my_tiny_network_library.Buffer.Inv.{
  IsValid, readable_bytes-eq, contents, length-contents-readable, retrieve-IsValid, HasSpace,
  ensure_writeable_bytes-HasSpace, ensure_writeable_bytes-writer_index,
}

-- A new buffer is empty.
pub contents-init : (fd size : ℕ) → contents (init fd size) ≡ []
unfolding init
contents-init fd size = refl

-- Writing at the writer index, with room for the text.
pub write_at-contents :
    (text : Bytes) (b : Buffer) (w : ℕ)
    → IsValid b
    → b.writer_index + length text ≤ length b.buffer
    → w ≡ b.writer_index + length text
    → let c = record b { buffer = splice b.buffer b.writer_index text; writer_index = w } in
      IsValid c × (contents c ≡ contents b ++ text)
write_at-contents text b w v h e = (
  record {
    front = v.front;
    order = omega arith;
    room = omega (arith, long);
    small = omega (arith, long);
  },
  ap (λ k. slice b.reader_index k (splice b.buffer b.writer_index text)) count
      ∙ slice-splice b.buffer b.reader_index b.writer_index text v.order v.room,
)
  where
    long : length (splice b.buffer b.writer_index text) ≡ length b.buffer
    long = length-splice b.buffer b.writer_index text h

    count : w - b.reader_index ≡ b.writer_index - b.reader_index + length text
    count = omega arith

-- `append` keeps the buffer valid and adds exactly the text behind the readable bytes, growing or
-- moving the storage where it must, for every text that fits into a vector.
pub append_lem :
    (text : Bytes) (b : Buffer)
    → IsValid b
    → b.writer_index + length text ≤ max_size
    → IsValid (append text b) × (contents (append text b) ≡ contents b ++ text)
unfolding append
append_lem text b v fits =
    let c = ensure_writeable_bytes (length text) b in
    let (valid, same) = write_at-contents text c _ roomy.valid roomy.space wraps in
    (valid, same ∙ ap (λ xs. xs ++ text) roomy.same)
  where
    roomy : HasSpace (length text) b (ensure_writeable_bytes (length text) b)
    roomy = ensure_writeable_bytes-HasSpace (length text) b v fits

    wraps :
        let w = (ensure_writeable_bytes (length text) b).writer_index in
        add_size w (length text) ≡ w + length text
    wraps =
        let c = ensure_writeable_bytes (length text) b in
        add_size-eq c.writer_index (length text) (omega (arith, roomy.space, roomy.valid.small))

-- The writer index goes up by the text at most.
pub append-writer_index :
    (text : Bytes) (b : Buffer)
    → IsValid b
    → b.writer_index + length text ≤ max_size
    → (append text b).writer_index ≤ b.writer_index + length text
unfolding append
append-writer_index text b v fits =
    let c = ensure_writeable_bytes (length text) b in
    let low = ensure_writeable_bytes-writer_index (length text) b v fits in
    omega (arith, low, add_size-eq c.writer_index (length text) (omega (arith, low)))

-- `retrieve` drops bytes from the front; it empties the buffer if there are no more than that.
pub contents-retrieve :
    (n : ℕ) (b : Buffer) → IsValid b → contents (retrieve n b) ≡ drop n (contents b)
unfolding retrieve
contents-retrieve n b v = elim (Bool-cases (ltb n (readable_bytes b))) [
  | inl e ↦
      rw (e, add_size-eq b.reader_index n (omega (arith, ltb→lt _ _ e, readable_bytes-eq b v)))
        (rest (b.writer_index - b.reader_index) _ (omega arith))
  | inr e ↦
      rw e
        (sym (drop-all n (contents b) (omega (arith, ltb→le _ _ e, length-contents-readable b v))))
]
  where
    rest :
        (k m : ℕ)
        → m ≡ k - n
        → slice (b.reader_index + n) m b.buffer ≡ drop n (slice b.reader_index k b.buffer)
    rest k m e =
        ap (take m) (sym (drop-drop n b.reader_index b.buffer))
        ∙ ap (λ j. take j (drop n (drop b.reader_index b.buffer))) e
        ∙ sym (drop-take n k (drop b.reader_index b.buffer))

pub peek-contents :
    (n : ℕ) (b : Buffer) → n ≤ b.writer_index - b.reader_index → peek b n ≡ take n (contents b)
unfolding peek
peek-contents n b h = take-take n (b.writer_index - b.reader_index) (drop b.reader_index b.buffer) h

-- `retrieveAsString` splits the readable bytes: it returns the first `n` of them, or all where there
-- are fewer, and leaves the others.
pub retrieve_as_string_lem :
    (n : ℕ) (b : Buffer)
    → IsValid b
    → let (text, c) = retrieve_as_string n b in
      (text ≡ take n (contents b)) × (contents c ≡ drop n (contents b)) × IsValid c
unfolding retrieve_as_string
retrieve_as_string_lem n b v = elim (Bool-cases (ltb (readable_bytes b) n)) [
  | inl e ↦ rw e (
    peek-contents (readable_bytes b) b (omega (arith, readable_bytes-eq b v))
        ∙ take-all (readable_bytes b) (contents b) (omega (arith, length-contents-readable b v))
        ∙ sym (take-all n (contents b) (omega (arith, ltb→lt _ _ e, length-contents-readable b v))),
    contents-retrieve (readable_bytes b) b v
        ∙ drop-all (readable_bytes b) (contents b) (omega (arith, length-contents-readable b v))
        ∙ sym (drop-all n (contents b) (omega (arith, ltb→lt _ _ e, length-contents-readable b v))),
    retrieve-IsValid (readable_bytes b) b v,
  )
  | inr e ↦ rw e (
    peek-contents n b (omega (arith, ltb→le _ _ e, readable_bytes-eq b v)),
    contents-retrieve n b v,
    retrieve-IsValid n b v,
  )
]

-- `retrieveAllAsString` returns the readable bytes and leaves none.
pub retrieve_all_as_string_lem :
    (b : Buffer)
    → IsValid b
    → let (text, c) = retrieve_all_as_string b in
      (text ≡ contents b) × (contents c ≡ []) × IsValid c
unfolding retrieve_all_as_string
retrieve_all_as_string_lem b v =
    let all : length (contents b) ≤ readable_bytes b =
      omega (arith, length-contents-readable b v) in
    let (text, rest, valid) = retrieve_as_string_lem (readable_bytes b) b v in
    (text ∙ take-all _ (contents b) all, rest ∙ drop-all _ (contents b) all, valid)

-- `findCRLF` looks at the readable bytes only.
pub find_crlf-contents : (b : Buffer) → IsValid b → find_crlf b ≡ find crlf (contents b)
unfolding find_crlf
find_crlf-contents b v =
    ap (λ n. find crlf (slice b.reader_index n b.buffer)) (readable_bytes-eq b v)

-- `retrieveUntil` drops what stands in front of its pointer.
pub contents-retrieve_until :
    (end : ℕ) (b : Buffer)
    → IsValid b
    → IsValid (retrieve_until end b) × (contents (retrieve_until end b) ≡ drop end (contents b))
unfolding retrieve_until
contents-retrieve_until end b v = (retrieve-IsValid end b v, contents-retrieve end b v)

-- Where a search for CRLF ends: nowhere is one, or there is one at the offset and none before.
abbrev pub FirstCrlf : Bytes → Option ℕ → Type 0
FirstCrlf text none = (j : ℕ) → starts_with crlf (drop j text) ≡ false
FirstCrlf text (some i) =
    (starts_with crlf (drop i text) ≡ true)
    × ((j : ℕ) → j < i → starts_with crlf (drop j text) ≡ false)

find-FirstCrlf : (text : Bytes) (o : Option ℕ) → find crlf text ≡ o → FirstCrlf text o
find-FirstCrlf text none e = λ j. find-none crlf text j e
find-FirstCrlf text (some i) e =
    (starts_with-find crlf text i e, λ j h. find_first crlf text i j e h)

-- `findCRLF` points at the first CRLF of the readable bytes, and is null only if there is none.
pub find_crlf-FirstCrlf : (b : Buffer) → IsValid b → FirstCrlf (contents b) (find_crlf b)
find_crlf-FirstCrlf b v = find-FirstCrlf (contents b) (find_crlf b) (sym (find_crlf-contents b v))
