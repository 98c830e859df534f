-- ===== src/Tcp/Pool.antt =====
-- src/muduo_core/EventLoopThreadPool.h and EventLoopThreadPool.cc. A thread that is started is an
-- argument: it gives the loop that it runs. `Loop` stands for the pointers to loops.
pub mod Rounds
use my_tiny_network_library.Base.{
  ℕ, zero, suc, Bool, true, false, ◌&&◌, List, [], ◌∷◌, ◌++◌, Option, none, some, if◌then◌else◌,
  leb, ◌==◌, Bytes, length, get_elem?, decimal,
}

pub record Pool (Loop : Type 0) : Type 0 where
  pub base_loop : Loop
  pub name : Bytes
  pub started : Bool
  pub num_threads : ℕ
  pub next : ℕ
  pub loops : List Loop

module _ {Loop : Type 0} where
  unfoldable pub init : Loop → Bytes → Pool Loop
  init base_loop name = record {
    base_loop = base_loop;
    name = name;
    started = false;
    num_threads = 0;
    next = 0;
    loops = [];
  }

  -- the loop over `numThreads_`, from thread i on
  unfoldable pub start_threads : (Bytes → Loop) → Bytes → ℕ → ℕ → List Loop
  start_threads start_loop name zero i = []
  start_threads start_loop name (suc n) i =
      start_loop (name ++ decimal i) ∷ start_threads start_loop name n (suc i)

  -- the loop that `cb` is called on in this thread, if any, and the pool
  unfoldable pub start : (Bytes → Loop) → Bool → Pool Loop → Option Loop × Pool Loop
  start start_loop has_callback p = (
    if p.num_threads == 0 && has_callback then some p.base_loop else none,
    record p { started = true; loops = p.loops ++ start_threads start_loop p.name p.num_threads 0 },
  )

  -- behind `loops_[next_]`
  abbrev pub chosen : Option Loop → Pool Loop → Option (Loop × Pool Loop)
  chosen none p = none
  chosen (some loop) p =
      some (loop, record p { next = if leb (length p.loops) (suc p.next) then 0 else suc p.next })

  -- `none` stands for a read behind the end of `loops_`.
  unfoldable pub get_next_loop : Pool Loop → Option (Loop × Pool Loop)
  get_next_loop p =
      if length p.loops == 0 then some (p.base_loop, p) else chosen (get_elem? p.loops p.next) p

  unfoldable pub get_all_loops : Pool Loop → List Loop
  get_all_loops p = if length p.loops == 0 then p.base_loop ∷ [] else p.loops
