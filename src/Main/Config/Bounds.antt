-- ===== src/Main/Config/Bounds.antt =====
-- Which settings are accepted.
use my_tiny_network_library.Base.{
  ℕ, ◌≤◌, ◌≡◌, refl, subst, arith, Bool, true, false, ◌++◌, Option, none, some, if◌then◌else◌,
  Bytes, codes, decimal,
}
use my_tiny_network_library.Http.Chars.{strtoull}
use my_tiny_network_library.Main.Config.{
  Setting, set, wrong, ◌>>=◌, given, is_refused, read_positive, positive_environment, Configuration,
  configure,
}

-- the settings are in their ranges
pub record InRange (c : Configuration) : Type 0 where
  pub port : (1 ≤ c.port) × (c.port ≤ 65535)
  pub worker_count : (1 ≤ c.worker_count) × (c.worker_count ≤ 1024)
  pub queue_capacity : (1 ≤ c.queue_capacity) × (c.queue_capacity ≤ 1000000)

read_positive_bounds :
    (name : Bytes) (fallback maximum n : ℕ) (o : Option Bytes)
    → 1 ≤ fallback
    → fallback ≤ maximum
    → read_positive name fallback maximum o ≡ set n
    → (1 ≤ n) × (n ≤ maximum)
read_positive_bounds name fallback maximum n none low high h =
    let same : fallback ≡ n = cc h in subst (λ k. (1 ≤ k) × (k ≤ maximum)) same (low, high)
read_positive_bounds name fallback maximum n (some text) low high h = go _ refl h
  where
    go :
        (bad : Bool)
        → is_refused maximum (strtoull text) ≡ bad
        → (if bad
            then wrong (name ++ codes " must be an integer between 1 and " ++ decimal maximum)
            else set (strtoull text).value)
          ≡ set n
        → (1 ≤ n) × (n ≤ maximum)
    go true e h = absurd (cc h)
    go false e h =
        let same : (strtoull text).value ≡ n = cc h in
        subst (λ k. (1 ≤ k) × (k ≤ maximum)) same (ground (arith, e))

positive_environment_bounds :
    (getenv : Bytes → Option Bytes) (name : Bytes) (fallback maximum n : ℕ)
    → 1 ≤ fallback
    → fallback ≤ maximum
    → positive_environment getenv name fallback maximum ≡ set n
    → (1 ≤ n) × (n ≤ maximum)
unfolding positive_environment
positive_environment_bounds getenv name fallback maximum n low high h =
    read_positive_bounds name fallback maximum n (given (getenv name)) low high h

bind-set :
    {A B : Type 0} (t : Setting A) (k : A → Setting B) (b : B)
    → (t >>= k) ≡ set b
    → (a : A) × (t ≡ set a) × (k a ≡ set b)
unfolding ◌>>=◌
bind-set (set a) k b h = (a, refl, h)
bind-set (wrong text) k b h = absurd (cc h)

-- Whatever the environment holds, a configuration that is accepted has a port that fits in 16 bits
-- and is not 0, and at least one worker and one place in the queue, within their limits.
pub configure-InRange :
    (getenv : Bytes → Option Bytes) (c : Configuration) → configure getenv ≡ set c → InRange c
unfolding configure
configure-InRange getenv c h =
    let port = bind-set _ _ _ h in
    let workers = bind-set _ _ _ port.2 in
    let capacity = bind-set _ _ _ workers.2 in
    let same : record { port = port.0; worker_count = workers.0; queue_capacity = capacity.0 } ≡ c =
      cc capacity.2 in
    subst InRange same (record {
      port = positive_environment_bounds getenv _ _ _ _ (omega arith) (omega arith) port.1;
      worker_count =
          positive_environment_bounds getenv _ _ _ _ (omega arith) (omega arith) workers.1;
      queue_capacity =
          positive_environment_bounds getenv _ _ _ _ (omega arith) (omega arith) capacity.1;
    })
