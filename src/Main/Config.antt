-- ===== src/Main/Config.antt =====
-- The settings that the server takes from its environment. `getenv` is a function from the name of a
-- variable to its text, if it is set.
pub mod Bounds
pub mod Written
use my_tiny_network_library.Base.{
  ℕ, Bool, true, false, not, ◌||◌, List, [], ◌∷◌, ◌++◌, Option, none, some, if◌then◌else◌, ltb,
  ◌==◌, Bytes, codes, decimal, is_empty,
}
use my_tiny_network_library.Http.Chars.{Converted, strtoull}

-- a value, or the text of an error
pub data Setting (A : Type 0) : Type 0 where
  set : A → Setting A
  wrong : Bytes → Setting A

infixl 5 ◌>>=◌
unfoldable pub ◌>>=◌ : {A B : Type 0} → Setting A → (A → Setting B) → Setting B
set a >>= k = k a
wrong text >>= k = wrong text

-- a variable that is set to an empty text counts as one that is not set
abbrev pub given : Option Bytes → Option Bytes
given none = none
given (some []) = none
given (some (c ∷ cs)) = some (c ∷ cs)

abbrev pub or_fallback : Bytes → Option Bytes → Bytes
or_fallback fallback none = fallback
or_fallback fallback (some text) = text

unfoldable pub environment_or_default : (Bytes → Option Bytes) → Bytes → Bytes → Bytes
environment_or_default getenv name fallback = or_fallback fallback (given (getenv name))

abbrev pub is_refused : ℕ → Converted → Bool
is_refused maximum parsed =
    parsed.range_error
    || not parsed.moved
    || not (is_empty parsed.rest)
    || parsed.value == 0
    || ltb maximum parsed.value

abbrev pub read_positive : Bytes → ℕ → ℕ → Option Bytes → Setting ℕ
read_positive name fallback maximum none = set fallback
read_positive name fallback maximum (some text) =
    let parsed = strtoull text in
    if is_refused maximum parsed
    then wrong (name ++ codes " must be an integer between 1 and " ++ decimal maximum)
    else set parsed.value

unfoldable pub positive_environment : (Bytes → Option Bytes) → Bytes → ℕ → ℕ → Setting ℕ
positive_environment getenv name fallback maximum =
    read_positive name fallback maximum (given (getenv name))

pub record Configuration : Type 0 where
  pub port : ℕ
  pub worker_count : ℕ
  pub queue_capacity : ℕ

-- the three tests at the start of `main`
unfoldable pub configure : (Bytes → Option Bytes) → Setting Configuration
configure getenv = do
  port ← positive_environment getenv (codes "MYWEBSERVER_PORT") 10000 65535
  workers ← positive_environment getenv (codes "MYWEBSERVER_INFERENCE_WORKERS") 2 1024
  capacity ← positive_environment getenv (codes "MYWEBSERVER_QUEUE_CAPACITY") 128 1000000
  set (record { port = port; worker_count = workers; queue_capacity = capacity })
