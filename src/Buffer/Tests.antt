-- ===== src/Buffer/Tests.antt =====
-- Runs of the buffer, and its theorems at concrete buffers.
use my_tiny_network_library.Base.{
  ℕ, ◌+◌, if◌then◌else◌, leb, ◌≡◌, refl, arith, ◌≤◌, add_size, sub_size, List, [], ◌∷◌, Bytes,
  codes, length,
}
use my_tiny_network_library.Buffer.{
  Buffer, append, IoResult, failed, moved, read_fd, io_vector, ensure_writeable_bytes,
}
use my_tiny_network_library.Buffer.Inv.{
  IsValid, HasSpace, contents, ensure_writeable_bytes-HasSpace,
}
use my_tiny_network_library.Buffer.Contents.{append_lem}
use my_tiny_network_library.Buffer.Fd.{room, read_fd-ReadOutcome}

-- eight bytes of storage behind the prepended ones, with "ab" read and "c\r\n" left
abbrev half_read : Buffer
half_read = record {
  fd = 0;
  buffer = 0 ∷ 0 ∷ 0 ∷ 0 ∷ 0 ∷ 0 ∷ 0 ∷ 0 ∷ 97 ∷ 98 ∷ 99 ∷ 13 ∷ 10 ∷ 0 ∷ [];
  reader_index = 10;
  writer_index = 13;
}

half_read-IsValid : IsValid half_read
half_read-IsValid = omega arith

-- one byte of room, and two of them read: the storage grows
grows : contents (append (codes "xyz") half_read) ≡ 99 ∷ 13 ∷ 10 ∷ codes "xyz"
unfolding append add_size sub_size
grows = refl

append_example :
    IsValid (append (codes "xyz") half_read)
    × (contents (append (codes "xyz") half_read) ≡ 99 ∷ 13 ∷ 10 ∷ codes "xyz")
append_example = append_lem (codes "xyz") half_read half_read-IsValid (omega arith)

space_example : HasSpace 3 half_read (ensure_writeable_bytes 3 half_read)
space_example = ensure_writeable_bytes-HasSpace 3 half_read half_read-IsValid (omega arith)

-- a kernel that delivers three bytes, or refuses a descriptor
three_bytes : ℕ → List ℕ → IoResult Bytes
three_bytes fd (a ∷ b ∷ areas) = if leb 3 (a + b) then moved (codes "xyz") else failed 11
three_bytes fd areas = failed 9

three_bytes-room :
    (fd : ℕ) (areas : List ℕ) (text : Bytes)
    → three_bytes fd areas ≡ moved text
    → length text ≤ room areas
unfolding three_bytes
three_bytes-room fd [] text e = cc
three_bytes-room fd (a ∷ []) text e = cc
three_bytes-room fd (a ∷ b ∷ areas) text e = ground arith

read_fd_example :
    let (result, c) = read_fd three_bytes 5 half_read in
    IsValid c × (result ≡ moved 3) × (contents c ≡ 99 ∷ 13 ∷ 10 ∷ codes "xyz")
unfolding three_bytes io_vector add_size sub_size
read_fd_example =
    read_fd-ReadOutcome three_bytes 5 half_read three_bytes-room half_read-IsValid (omega arith)
