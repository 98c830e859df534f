-- ===== src/Logger/File.antt =====
-- src/logger/FileUtil.h, FileUtil.cc, LogFile.h and LogFile.cc. `fwrite` is an argument, from what the
-- file holds and what is to be written to the number of bytes that it takes; so are the clock and the
-- name of a file, which the C library makes from the time. A file's `text` is what it got from here.
pub mod Kept
use my_tiny_network_library.Base.{
  ℕ, zero, suc, ◌+◌, ◌-◌, ◌*◌, ◌/◌, Bool, true, false, not, List, [], ◌∷◌, ◌++◌, Option, none, some,
  if◌then◌else◌, ltb, leb, ◌==◌, Bytes, length, take, drop,
}

pub record File : Type 0 where
  pub name : Bytes
  pub text : Bytes
  pub written_bytes : ℕ

unfoldable pub open_file : Bytes → File
open_file name = record { name = name; text = []; written_bytes = 0 }

-- the loop of `append` over the bytes that remain, with a round of fuel for each and one for the end
unfoldable pub write_loop : (Bytes → Bytes → ℕ) → ℕ → Bytes → File → Option File
write_loop fwrite zero remain f = none
write_loop fwrite (suc fuel) remain f =
    let n = fwrite f.text remain in
    let more =
      write_loop fwrite fuel (drop n remain) (record f { text = f.text ++ take n remain }) in
    if length remain == 0 then some f else more

abbrev pub counted : ℕ → Option File → Option File
counted len none = none
counted len (some f) = some (record f { written_bytes = f.written_bytes + len })

unfoldable pub file_append : (Bytes → Bytes → ℕ) → Bytes → File → Option File
file_append fwrite text f = counted (length text) (write_loop fwrite (length text + 1) text f)

-- `closed` are the files before the present one, and `flushes` counts the calls of `fflush`.
pub record LogFile : Type 0 where
  pub roll_size : ℕ
  pub flush_interval : ℕ
  pub check_every_n : ℕ
  pub count : ℕ
  pub start_of_period : ℕ
  pub last_roll : ℕ
  pub last_flush : ℕ
  pub file : File
  pub closed : List File
  pub flushes : ℕ

abbrev pub roll_per_seconds : ℕ
roll_per_seconds = 86400

-- the first second of the day
unfoldable pub period_of : ℕ → ℕ
period_of now = now / roll_per_seconds * roll_per_seconds

unfoldable pub roll_file : (ℕ → Bytes) → ℕ → LogFile → Bool × LogFile
roll_file log_file_name now s =
    if ltb s.last_roll now
    then (
      true,
      record s {
        last_roll = now;
        last_flush = now;
        start_of_period = period_of now;
        file = open_file (log_file_name now);
        closed = s.closed ++ s.file ∷ [];
      },
    )
    else (false, s)

unfoldable pub flush : LogFile → LogFile
flush s = record s { flushes = suc s.flushes }

-- what is due when `count_` has come to its end: `now` is the time here, and `later` in `rollFile`
unfoldable pub check_time : (ℕ → Bytes) → ℕ → ℕ → LogFile → LogFile
check_time log_file_name now later s =
    if not (period_of now == s.start_of_period)
    then (roll_file log_file_name later s).1
    else if ltb s.flush_interval (now - s.last_flush)
    then flush (record s { last_flush = now })
    else s

unfoldable pub check_file : (ℕ → Bytes) → ℕ → ℕ → LogFile → LogFile
check_file log_file_name now later s =
    if ltb s.roll_size s.file.written_bytes
    then (roll_file log_file_name later s).1
    else if leb s.check_every_n (suc s.count)
    then check_time log_file_name now later (record s { count = 0 })
    else record s { count = suc s.count }

abbrev pub appended : (ℕ → Bytes) → ℕ → ℕ → LogFile → Option File → Option LogFile
appended log_file_name now later s none = none
appended log_file_name now later s (some file) =
    some (check_file log_file_name now later (record s { file = file }))

unfoldable pub append_in_lock :
    (Bytes → Bytes → ℕ) → (ℕ → Bytes) → ℕ → ℕ → Bytes → LogFile → Option LogFile
append_in_lock fwrite log_file_name now later text s =
    appended log_file_name now later s (file_append fwrite text s.file)
