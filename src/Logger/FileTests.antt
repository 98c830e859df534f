-- ===== src/Logger/FileTests.antt =====
-- Runs of a log file over an `fwrite` that takes at most two bytes, of numbers in a line, and their
-- theorems there.
use my_tiny_network_library.Base.{
  ℕ, ◌<◌, ◌≡◌, refl, arith, true, [], ◌∷◌, ◌++◌, some, Bytes, codes, length, min, replicate, digits,
  decimal,
}
use my_tiny_network_library.Logger.Fixed.{FixedBuffer, IsFixed, avail, written}
use my_tiny_network_library.Logger.File.{File, LogFile, append_in_lock, check_file, roll_file}
use my_tiny_network_library.Logger.File.Kept.{TakesSome, total, append_in_lock_lem}
use my_tiny_network_library.Logger.Stream.{format_integer, number_text, low_digits, digit_at}
use my_tiny_network_library.Logger.Stream.Number.{format_integer-signed_decimal}

abbrev two_bytes : Bytes → Bytes → ℕ
two_bytes text remain = min 2 (length remain)

two_bytes-some : TakesSome two_bytes
two_bytes-some text remain h = (omega (arith, h), omega arith)

abbrev day_name : ℕ → Bytes
day_name now = codes "log." ++ decimal now

abbrev some_file : File
some_file = record { name = codes "log.1"; text = codes "a"; written_bytes = 1 }

abbrev small_log : LogFile
small_log = record {
  roll_size = 3;
  flush_interval = 3;
  check_every_n = 1024;
  count = 7;
  start_of_period = 0;
  last_roll = 1;
  last_flush = 1;
  file = some_file;
  closed = [];
  flushes = 0;
}

append_in_lock_example :
    (t : LogFile) × (append_in_lock two_bytes day_name 5 6 (codes "bcd") small_log ≡ some t)
    × (total t ≡ codes "abcd")
    × (t.count < t.check_every_n)
append_in_lock_example =
    append_in_lock_lem two_bytes day_name 5 6 (codes "bcd") small_log two_bytes-some (omega arith)

-- the file is over its size, and rolls
rolls :
    (check_file day_name 5 6
      (record small_log { file = record some_file { written_bytes = 4 } })).closed
    ≡ record some_file { written_bytes = 4 } ∷ []
unfolding check_file roll_file
rolls = refl

abbrev line : FixedBuffer
line = record { data_ = codes "x=" ++ replicate 60 9; cur = 2 }

written_number : written (format_integer true 1205 line) ≡ codes "x=-1205"
unfolding format_integer number_text low_digits digit_at avail
written_number = refl

format_integer-signed_decimal_example :
    IsFixed 62 (format_integer true 1205 line)
    × (written (format_integer true 1205 line) ≡ codes "x=" ++ codes "-1205")
unfolding avail decimal digits
format_integer-signed_decimal_example =
    format_integer-signed_decimal 62 true 1205 line (record { sized = refl; within = omega arith })
      (omega arith) (omega arith)
