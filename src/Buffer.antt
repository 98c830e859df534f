-- ===== src/Buffer.antt =====
-- src/muduo_core/Buffer.h and Buffer.cc: the byte buffer between a socket and a connection.
-- `buffer_` is a list of bytes, the two indices are 64-bit words, and a pointer into the readable
-- part is its offset from `peek()`. The system calls `readv` and `write` are arguments.
pub mod Inv
pub mod Contents
pub mod Fd
mod Tests
use my_tiny_network_library.Base.{
  ℕ, ◌+◌, ◌*◌, ◌≤◌, Bool, List, [], ◌∷◌, ◌++◌, Option, none, some, if◌then◌else◌, ltb, leb, length,
  take, drop, replicate, slice, splice, Bytes, codes, find, add_size, sub_size,
}

abbrev pub cheap_prepend : ℕ
cheap_prepend = 8

abbrev pub initial_size : ℕ
initial_size = 1024 * 1024

pub record Buffer : Type 0 where
  pub fd : ℕ
  pub buffer : Bytes
  pub reader_index : ℕ
  pub writer_index : ℕ

-- The constructor. `fd_` is not initialised by the source: its first value is an argument.
unfoldable pub init : ℕ → ℕ → Buffer
init fd size = record {
  fd = fd;
  buffer = replicate (cheap_prepend + size) 0;
  reader_index = cheap_prepend;
  writer_index = cheap_prepend;
}

unfoldable pub readable_bytes : Buffer → ℕ
readable_bytes b = sub_size b.writer_index b.reader_index

unfoldable pub writable_bytes : Buffer → ℕ
writable_bytes b = sub_size (length b.buffer) b.writer_index

unfoldable pub prependable_bytes : Buffer → ℕ
prependable_bytes b = b.reader_index

-- the `n` bytes from `peek()` on
unfoldable pub peek : Buffer → ℕ → Bytes
peek b n = slice b.reader_index n b.buffer

unfoldable pub retrieve_all : Buffer → Buffer
retrieve_all b = record b { reader_index = cheap_prepend; writer_index = cheap_prepend }

unfoldable pub retrieve : ℕ → Buffer → Buffer
unfolding readable_bytes retrieve_all
retrieve len b =
    if ltb len (readable_bytes b)
    then record b { reader_index = add_size b.reader_index len }
    else retrieve_all b

-- `end` is an offset from `peek()`
unfoldable pub retrieve_until : ℕ → Buffer → Buffer
unfolding retrieve
retrieve_until end b = retrieve end b

unfoldable pub retrieve_as_string : ℕ → Buffer → Bytes × Buffer
unfolding retrieve peek
retrieve_as_string len b =
    let n = if ltb (readable_bytes b) len then readable_bytes b else len in (peek b n, retrieve n b)

unfoldable pub retrieve_all_as_string : Buffer → Bytes × Buffer
unfolding retrieve_as_string
retrieve_all_as_string b = retrieve_as_string (readable_bytes b) b

-- `buffer_.resize(n)`
unfoldable pub resize : ℕ → Bytes → Bytes
resize n xs = if leb n (length xs) then take n xs else xs ++ replicate (sub_size n (length xs)) 0

unfoldable pub make_space : ℕ → Buffer → Buffer
unfolding readable_bytes writable_bytes prependable_bytes resize peek
make_space len b =
    if ltb (add_size (writable_bytes b) (prependable_bytes b)) (add_size len cheap_prepend)
    then record b { buffer = resize (add_size b.writer_index len) b.buffer }
    else (let readable = readable_bytes b in
        record b {
          buffer = splice b.buffer cheap_prepend (peek b readable);
          reader_index = cheap_prepend;
          writer_index = add_size cheap_prepend readable;
        })

unfoldable pub ensure_writeable_bytes : ℕ → Buffer → Buffer
unfolding make_space writable_bytes
ensure_writeable_bytes len b = if ltb (writable_bytes b) len then make_space len b else b

unfoldable pub append : Bytes → Buffer → Buffer
unfolding ensure_writeable_bytes
append text b =
    let b' = ensure_writeable_bytes (length text) b in
    record b' {
      buffer = splice b'.buffer b'.writer_index text;
      writer_index = add_size b'.writer_index (length text);
    }

abbrev pub crlf : Bytes
crlf = b'\r' ∷ b'\n' ∷ []

-- The offset of the first CRLF from `peek()`; `none` is the null pointer.
unfoldable pub find_crlf : Buffer → Option ℕ
unfolding readable_bytes peek
find_crlf b = find crlf (peek b (readable_bytes b))

-- What a read or write call returns: `errno`, or the bytes moved.
pub data IoResult {ℓ} (A : Type ℓ) : Type ℓ where
  failed : ℕ → IoResult A
  moved : A → IoResult A

abbrev pub extra_size : ℕ
extra_size = 65536

-- The lengths of the areas handed to `readv`: the writable part, and `extrabuf` if that is small.
unfoldable pub io_vector : Buffer → List ℕ
unfolding writable_bytes
io_vector b =
    let writable = writable_bytes b in
    if ltb writable extra_size then writable ∷ extra_size ∷ [] else writable ∷ []

-- The kernel has filled the areas in order with the bytes of `text`.
unfoldable pub store_read : Bytes → Buffer → Buffer
unfolding writable_bytes append
store_read text b =
    let writable = writable_bytes b in
    let filled = splice b.buffer b.writer_index (take writable text) in
    if leb (length text) writable
    then record b { buffer = filled; writer_index = add_size b.writer_index (length text) }
    else append (drop writable text) (record b { buffer = filled; writer_index = length b.buffer })

-- The result is `n`, or the `errno` to be saved.
unfoldable pub finish_read : IoResult Bytes → ℕ → Buffer → IoResult ℕ × Buffer
unfolding store_read
finish_read (failed errno) fd b = (failed errno, record b { fd = fd })
finish_read (moved text) fd b = (moved (length text), store_read text (record b { fd = fd }))

-- `readv` gets the descriptor and the lengths of the areas.
unfoldable pub read_fd : (ℕ → List ℕ → IoResult Bytes) → ℕ → Buffer → IoResult ℕ × Buffer
unfolding io_vector finish_read
read_fd readv fd b = finish_read (readv fd (io_vector b)) fd b

-- `write` gets the descriptor and the readable bytes. The buffer is left as it is.
unfoldable pub write_fd : (ℕ → Bytes → IoResult ℕ) → ℕ → Buffer → IoResult ℕ
unfolding readable_bytes peek
write_fd write fd b = write fd (peek b (readable_bytes b))
