-- ===== src/Logger/Tests.antt =====
-- Runs of the log with buffers of four bytes, and its theorems there.
use my_tiny_network_library.Base.{ℕ, ◌≡◌, ◌≢◌, refl, arith, [], ◌∷◌, ◌++◌, none, some, Bytes, codes}
use my_tiny_network_library.Logger.Fixed.{FixedBuffer, fresh, avail, append, reset, fixed_length}
use my_tiny_network_library.Logger.Async.{
  Front, Back, init, init_back, log, collect, write_out, write_all, pop_back,
}
use my_tiny_network_library.Logger.Async.Order.{
  System, logs, collects, writes, Reachable, started, next, all_written, content, Heads, together,
}
use my_tiny_network_library.Logger.Async.Turns.{Reachable-logged, Reachable-turns}

abbrev raw : Bytes
raw = 9 ∷ 9 ∷ 9 ∷ 9 ∷ []

abbrev quiet : System
quiet = record { front = init raw raw; back = init_back raw raw; logged = []; handed = [] }

abbrev held : Bytes → ℕ → FixedBuffer
held data_ cur = record { data_ = data_; cur = cur }

-- two lines of three bytes, the second in the next buffer
abbrev two_lines : System
two_lines = record quiet {
  front = log raw (codes "xyz") (log raw (codes "abc") (init raw raw));
  logged = ([] ++ codes "abc") ++ codes "xyz";
}

two_lines-front : two_lines.front ≡ (record {
  current = held (codes "xyz" ++ 9 ∷ []) 3;
  next = none;
  buffers = held (codes "abc" ++ 9 ∷ []) 3 ∷ [];
})
unfolding log append avail init fresh
two_lines-front = refl

two_lines-Reachable : Reachable 4 two_lines
two_lines-Reachable =
    next (record quiet { front = log raw (codes "abc") (init raw raw); logged = codes "abc" })
      two_lines
      (next quiet _ (started raw raw raw raw refl refl refl refl)
        (logs raw (codes "abc") refl (omega arith)))
      (logs raw (codes "xyz") refl (omega arith))

abbrev collected_front : Front
collected_front = record { current = held raw 0; next = some (held raw 0); buffers = [] }

abbrev collected_back : Back
collected_back = record {
  new_1 = none;
  new_2 = none;
  to_write = held (codes "abc" ++ 9 ∷ []) 3 ∷ held (codes "xyz" ++ 9 ∷ []) 3 ∷ [];
  output = [];
}

abbrev collected : System
collected = record two_lines { front = collected_front; back = collected_back }

collected-Reachable : Reachable 4 collected
unfolding log append avail init init_back fresh collect
collected-Reachable =
    next two_lines collected two_lines-Reachable (collects collected_front collected_back refl refl)

abbrev restocked : Back
restocked = record {
  new_1 = some (held (codes "xyz" ++ 9 ∷ []) 0);
  new_2 = some (held (codes "abc" ++ 9 ∷ []) 0);
  to_write = [];
  output = (codes "abc" ++ 9 ∷ []) ∷ (codes "xyz" ++ 9 ∷ []) ∷ [];
}

abbrev written_out : System
written_out = record collected { back = restocked; handed = [] ++ (codes "abc" ∷ codes "xyz" ∷ []) }

written_out-Reachable : Reachable 4 written_out
unfolding write_out write_all pop_back reset fixed_length
written_out-Reachable =
    next collected written_out collected-Reachable (writes restocked (λ e. cc e) refl)

Reachable-logged_example :
    Heads written_out.handed written_out.back.output
    × (together written_out.handed
          ++ (all_written written_out.back.to_write ++ content written_out.front)
        ≡ written_out.logged)
Reachable-logged_example = Reachable-logged 4 written_out written_out-Reachable

Reachable-turns_example :
    (collected.back.to_write ≡ [] → collect collected.front collected.back ≢ none)
    × (collected.back.to_write ≢ [] → write_out collected.back ≢ none)
Reachable-turns_example = Reachable-turns 4 collected collected-Reachable
