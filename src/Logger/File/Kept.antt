-- ===== src/Logger/File/Kept.antt =====
-- What goes into log files stays there, whenever they roll.
use my_tiny_network_library.Base.{
  ℕ, zero, suc, ◌+◌, ◌-◌, ◌<◌, ◌≤◌, ◌≡◌, refl, sym, ap, ◌∙◌, arith, Bool, true, false, not, List,
  [], ◌∷◌, ◌++◌, append_assoc, append-nil, some, ltb, leb, ◌==◌, Bytes, length, take, drop,
  take-drop, length-drop,
}
use my_tiny_network_library.Logger.File.{
  File, open_file, write_loop, counted, file_append, LogFile, roll_file, flush, check_time,
  check_file, period_of, appended, append_in_lock,
}

-- what `fwrite` does when there is no error: it takes something of what it is given, and no more
abbrev pub TakesSome : (Bytes → Bytes → ℕ) → Type 0
TakesSome fwrite =
    (text remain : Bytes)
    → 0 < length remain
    → (0 < fwrite text remain) × (fwrite text remain ≤ length remain)

write_loop-step :
    (fwrite : Bytes → Bytes → ℕ) (fuel : ℕ) (remain : Bytes) (f : File)
    → 0 < length remain
    → let n = fwrite f.text remain in
      write_loop fwrite (suc fuel) remain f
      ≡ write_loop fwrite fuel (drop n remain) (record f { text = f.text ++ take n remain })
unfolding write_loop
write_loop-step fwrite fuel remain f h =
    let busy : (length remain == 0) ≡ false = ground arith in rw busy refl

write_loop-all :
    (fwrite : Bytes → Bytes → ℕ) (fuel : ℕ) (remain : Bytes) (f : File)
    → TakesSome fwrite
    → length remain < fuel
    → write_loop fwrite fuel remain f ≡ some (record f { text = f.text ++ remain })
unfolding write_loop
write_loop-all fwrite zero remain f h k = absurd (omega arith)
write_loop-all fwrite (suc fuel) [] f h k =
    ap (λ t. some (record f { text = t })) (sym (append-nil f.text))
write_loop-all fwrite (suc fuel) (x ∷ remain) f h k =
    let n = fwrite f.text (x ∷ remain) in
    let (some_taken, no_more) = h f.text (x ∷ remain) (omega arith) in
    write_loop-step fwrite fuel (x ∷ remain) f (omega arith)
    ∙ write_loop-all fwrite fuel (drop n (x ∷ remain))
        (record f { text = f.text ++ take n (x ∷ remain) }) h
        (omega (arith, k, some_taken, no_more, length-drop n (x ∷ remain)))
    ∙ ap (λ t. some (record f { text = t }))
        (append_assoc f.text (take n (x ∷ remain)) (drop n (x ∷ remain))
          ∙ ap (λ l. f.text ++ l) (take-drop n (x ∷ remain)))

-- `FileUtil::append` comes to its end with the whole text in the file, and its length counted, where
-- `fwrite` takes at least a byte each time, and no more than it is given.
pub file_append_lem :
    (fwrite : Bytes → Bytes → ℕ) (text : Bytes) (f : File)
    → TakesSome fwrite
    → file_append fwrite text f
      ≡ some (record f { text = f.text ++ text; written_bytes = f.written_bytes + length text })
unfolding file_append
file_append_lem fwrite text f h =
    ap (counted (length text)) (write_loop-all fwrite (length text + 1) text f h (omega arith))

abbrev pub texts : List File → Bytes
texts [] = []
texts (f ∷ files) = f.text ++ texts files

-- all that the log files got, in order
abbrev pub total : LogFile → Bytes
total s = texts s.closed ++ s.file.text

texts-append : (files : List File) (f : File) → texts (files ++ f ∷ []) ≡ texts files ++ f.text
texts-append [] f = append-nil f.text
texts-append (g ∷ files) f =
    ap (λ l. g.text ++ l) (texts-append files f) ∙ sym (append_assoc g.text (texts files) f.text)

-- the same texts and, where it counts, a counter below its bound
record Same (s t : LogFile) : Type 0 where
  same_total : total t ≡ total s
  bounded : s.count < s.check_every_n → t.count < t.check_every_n

roll_file-Same :
    (log_file_name : ℕ → Bytes) (now : ℕ) (s : LogFile) → Same s (roll_file log_file_name now s).1
unfolding roll_file open_file
roll_file-Same log_file_name now s = go _ refl
  where
    go : (due : Bool) → ltb s.last_roll now ≡ due → Same s (roll_file log_file_name now s).1
    go true e = rw e (record {
      same_total = append-nil (texts (s.closed ++ s.file ∷ [])) ∙ texts-append s.closed s.file;
      bounded = λ h. h;
    })
    go false e = rw e (record { same_total = refl; bounded = λ h. h })

check_time-Same :
    (log_file_name : ℕ → Bytes) (now later : ℕ) (s : LogFile)
    → Same s (check_time log_file_name now later s)
unfolding check_time flush
check_time-Same log_file_name now later s = go _ _ refl refl
  where
    go :
        (another quiet : Bool)
        → (not (period_of now == s.start_of_period)) ≡ another
        → ltb s.flush_interval (now - s.last_flush) ≡ quiet
        → Same s (check_time log_file_name now later s)
    go true quiet e k = rw e (roll_file-Same log_file_name later s)
    go false true e k = rw (e, k) (record { same_total = refl; bounded = λ h. h })
    go false false e k = rw (e, k) (record { same_total = refl; bounded = λ h. h })

check_file-Same :
    (log_file_name : ℕ → Bytes) (now later : ℕ) (s : LogFile)
    → Same s (check_file log_file_name now later s)
unfolding check_file
check_file-Same log_file_name now later s = go _ _ refl refl
  where
    go :
        (large due : Bool)
        → ltb s.roll_size s.file.written_bytes ≡ large
        → leb s.check_every_n (suc s.count) ≡ due
        → Same s (check_file log_file_name now later s)
    go true due e k = rw e (roll_file-Same log_file_name later s)
    go false true e k =
        let checked = check_time-Same log_file_name now later (record s { count = 0 }) in
        rw (e, k)
          (record {
            same_total = checked.same_total;
            bounded = λ h. checked.bounded (omega (arith, h));
          })
    go false false e k = rw (e, k) (record { same_total = refl; bounded = λ h. ground (arith, k) })

-- `LogFile::append` puts the whole text behind all that the files got so far, whether a file rolls,
-- for its size or for the day, is flushed or goes on, and keeps `count_` below `checkEveryN_`; where
-- `fwrite` takes at least a byte each time, and no more than it is given.
pub append_in_lock_lem :
    (fwrite : Bytes → Bytes → ℕ) (log_file_name : ℕ → Bytes) (now later : ℕ) (text : Bytes)
    (s : LogFile)
    → TakesSome fwrite
    → s.count < s.check_every_n
    → (t : LogFile) × (append_in_lock fwrite log_file_name now later text s ≡ some t)
      × (total t ≡ total s ++ text)
      × (t.count < t.check_every_n)
unfolding append_in_lock
append_in_lock_lem fwrite log_file_name now later text s h k =
    let file : File = record s.file {
      text = s.file.text ++ text;
      written_bytes = s.file.written_bytes + length text;
    } in
    let same = check_file-Same log_file_name now later (record s { file = file }) in
    (
      check_file log_file_name now later (record s { file = file }),
      ap (appended log_file_name now later s) (file_append_lem fwrite text s.file h),
      same.same_total ∙ sym (append_assoc (texts s.closed) s.file.text text),
      same.bounded k,
    )
