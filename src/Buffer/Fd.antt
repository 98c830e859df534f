-- ===== src/Buffer/Fd.antt =====
-- Buffer.cc: `readFd` and `writeFd` around the system calls.
use my_tiny_network_library.Base.{
  ℕ, ◌+◌, ◌-◌, ◌≤◌, ◌≡◌, refl, sym, ap, ◌∙◌, Bool-cases, inl, inr, arith, leb, leb→le, leb→lt, List,
  [], ◌∷◌, length, take, drop, ◌++◌, append_assoc, slice, splice, Bytes, length-take, length-drop,
  take-all, take-drop, add_size-eq, max_size,
}
use my_tiny_network_library.Buffer.{
  Buffer, writable_bytes, IoResult, failed, moved, extra_size, io_vector, store_read, finish_read,
  read_fd, write_fd,
}
use my_tiny_network_library.Buffer.Inv.{IsValid, readable_bytes-eq, writable_bytes-eq, contents}
use my_tiny_network_library.Buffer.Contents.{write_at-contents, append_lem}

-- the bytes that fit into the areas of `readv`
abbrev pub room : List ℕ → ℕ
room [] = 0
room (n ∷ ns) = n + room ns

-- At most 64 KB of what `readv` delivers lie outside the writable part.
spill :
    (text : Bytes) (b : Buffer)
    → IsValid b
    → length b.buffer + extra_size ≤ max_size
    → length text ≤ room (io_vector b)
    → length b.buffer + (length text - writable_bytes b) ≤ max_size
unfolding io_vector
spill text b v small h = ground arith

-- The bytes that the kernel has put into the areas end up behind the readable bytes, whether they
-- fit into the writable part or spill over into `extrabuf`.
store_read_lem :
    (text : Bytes) (b : Buffer)
    → IsValid b
    → length b.buffer + (length text - writable_bytes b) ≤ max_size
    → IsValid (store_read text b) × (contents (store_read text b) ≡ contents b ++ text)
unfolding store_read
store_read_lem text b v small = elim (Bool-cases (leb (length text) (writable_bytes b))) [
  | inl fits ↦
      rw
        (
          fits,
          take-all (writable_bytes b) text (leb→le _ _ fits),
          add_size-eq b.writer_index (length text)
              (omega (arith, v.room, v.small, leb→le _ _ fits, writable_bytes-eq b v)),
        )
        (write_at-contents text b (b.writer_index + length text) v
          (omega (arith, leb→le _ _ fits, writable_bytes-eq b v, v.room)) refl)
  | inr spills ↦
      let n = writable_bytes b in
      let front : length (take n text) ≡ n = omega (arith, length-take n text, leb→lt _ _ spills) in
      let full : b.writer_index + length (take n text) ≡ length b.buffer =
        omega (arith, front, writable_bytes-eq b v, v.room) in
      let (valid, same) =
        write_at-contents (take n text) b (length b.buffer) v (omega (arith, full)) (sym full) in
      let (valid', same') =
        append_lem (drop n text) (overflowed n) valid (omega (arith, length-drop n text)) in
      rw spills (
        valid',
        same'
            ∙ ap (λ xs. xs ++ drop n text) same
            ∙ append_assoc (contents b) (take n text) (drop n text)
            ∙ ap (λ xs. contents b ++ xs) (take-drop n text),
      )
]
  where
    overflowed : ℕ → Buffer
    overflowed n = record b {
      buffer = splice b.buffer b.writer_index (take n text);
      writer_index = length b.buffer;
    }

-- What a call of `readFd` did: the error of `readv` and the same readable bytes, or the number of
-- bytes delivered and these bytes behind the readable ones.
abbrev pub ReadOutcome : IoResult Bytes → Buffer → IoResult ℕ × Buffer → Type 0
ReadOutcome (failed errno) b (result, c) =
    IsValid c × (result ≡ failed errno) × (contents c ≡ contents b)
ReadOutcome (moved text) b (result, c) =
    IsValid c × (result ≡ moved (length text)) × (contents c ≡ contents b ++ text)

with_fd-IsValid : (fd : ℕ) (b : Buffer) → IsValid b → IsValid (record b { fd = fd })
with_fd-IsValid fd b v = omega arith

finish_read-ReadOutcome :
    (r : IoResult Bytes) (fd : ℕ) (b : Buffer)
    → IsValid b
    → ((text : Bytes) → r ≡ moved text → length text ≤ room (io_vector b))
    → length b.buffer + extra_size ≤ max_size
    → ReadOutcome r b (finish_read r fd b)
unfolding finish_read
finish_read-ReadOutcome (failed errno) fd b v bounded small = (with_fd-IsValid fd b v, refl, refl)
finish_read-ReadOutcome (moved text) fd b v bounded small =
    let (valid, same) =
      store_read_lem text (record b { fd = fd }) (with_fd-IsValid fd b v)
        (spill text b v small (bounded text refl)) in
    (valid, refl, same)

-- `readFd`: a failed read returns its error and leaves the readable bytes alone; otherwise the bytes
-- that `readv` delivers are appended, and their number is returned. It is assumed that `readv`
-- delivers no more bytes than its areas hold, and that the vector can grow by 64 KB.
pub read_fd-ReadOutcome :
    (readv : ℕ → List ℕ → IoResult Bytes) (fd : ℕ) (b : Buffer)
    → ((fd : ℕ) (areas : List ℕ) (text : Bytes)
        → readv fd areas ≡ moved text
        → length text ≤ room areas)
    → IsValid b
    → length b.buffer + extra_size ≤ max_size
    → ReadOutcome (readv fd (io_vector b)) b (read_fd readv fd b)
unfolding read_fd
read_fd-ReadOutcome readv fd b bounded v small =
    finish_read-ReadOutcome (readv fd (io_vector b)) fd b v (bounded fd (io_vector b)) small

-- `writeFd` hands exactly the readable bytes to `write`, and returns what that returns.
pub write_fd_lem :
    (write : ℕ → Bytes → IoResult ℕ) (fd : ℕ) (b : Buffer)
    → IsValid b
    → write_fd write fd b ≡ write fd (contents b)
unfolding write_fd
write_fd_lem write fd b v =
    ap (λ n. write fd (slice b.reader_index n b.buffer)) (readable_bytes-eq b v)
