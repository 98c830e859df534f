-- ===== src/Inference/Tests.antt =====
-- Runs of the registry and the scheduler over mock backends, and their theorems at them.
use my_tiny_network_library.Base.{
  ℕ, ◌+◌, leb, arith, length, inr, ◌≡◌, refl, true, false, [], ◌∷◌, Option, some, Bytes, codes, pos,
  is_some, equal, less,
}
use my_tiny_network_library.Inference.Types.{
  BackendType, auto, tensor_flow, tensor_rt, ModelConfig, backend_type_name, same_backend,
  InferenceBackend,
}
use my_tiny_network_library.Inference.Registry.{
  Registration, ModelRegistry, add, resolve, resolve_name, has_backend, initialize, initialize_all,
  initialize_one, bring_up, brought_up, select, eligible, outranks, any, duplicate, same_key,
  registered,
}
use my_tiny_network_library.Inference.Registry.Routing.{Resolution, resolve-Resolution}
use my_tiny_network_library.Inference.Registry.Inv.{
  IsValid, add-IsValid, initialize-IsValid, init-IsValid,
}
use my_tiny_network_library.Inference.Registry.Queries.{has_backend-resolve}
use my_tiny_network_library.Inference.Registry.Inv
use my_tiny_network_library.Inference.Metrics.Labels.{labels-labels}
use my_tiny_network_library.Inference.Metrics.{Histogram, observe_one}
use my_tiny_network_library.Inference.Metrics.Buckets.{IsHistogram, observe_one-IsHistogram}
use my_tiny_network_library.Inference.Mock.{mock, MockBackend, load, warmup}

abbrev yolo : BackendType → ModelConfig
yolo backend = record {
  name = codes "yolo";
  version = codes "1";
  path = codes "/m";
  backend = backend;
  device_id = pos 0;
  max_concurrency = 1;
}

abbrev empty : ModelRegistry ℕ
empty = record { default_model = []; registrations = [] }

abbrev entry : BackendType → ℕ → ℕ → Registration ℕ
entry backend handle priority = record {
  config = yolo backend;
  backend = some handle;
  priority = pos priority;
  available = true;
  load_error = [];
}

-- two backends of one model, both of them up
abbrev two : ModelRegistry ℕ
two = record {
  default_model = codes "yolo";
  registrations = entry tensor_flow 10 0 ∷ entry tensor_rt 11 5 ∷ [];
}

-- the registry with all that it calls open
looks_up : ModelRegistry ℕ → Bytes → BackendType → Bytes × Option ℕ
unfolding resolve resolve_name select eligible outranks equal same_backend less has_backend any add
    duplicate same_key registered initialize initialize_all initialize_one bring_up brought_up
    backend_type_name mock load warmup
looks_up = resolve

-- without a wish for a type, the default model goes to the higher priority
routes : resolve two (codes "default") auto ≡ (codes "yolo", some 11)
unfolding looks_up
routes = refl

resolve-Resolution_example :
    Resolution two (resolve_name two (codes "default")) auto (resolve two (codes "default") auto).1
resolve-Resolution_example = resolve-Resolution two (codes "default") auto

two-IsValid : IsValid two
unfolding looks_up Inv.Distinct
two-IsValid = record {
  distinct = ((refl, tt), (tt, tt));
  backed = ((λ e. (10, refl)), ((λ e. (11, refl)), tt));
}

has_backend-resolve_example :
    has_backend two (codes "default") tensor_rt
    ≡ is_some (resolve two (codes "default") tensor_rt).1
has_backend-resolve_example =
    has_backend-resolve two (codes "default") tensor_rt two-IsValid (λ e. cc)

abbrev real : ℕ → ℕ → ℕ
real digits places = digits

abbrev backend : InferenceBackend MockBackend ℕ ℕ
unfolding mock
backend = mock real 3

initialize-IsValid_example : IsValid (initialize backend two (record { loaded = false })).1
initialize-IsValid_example = initialize-IsValid backend two (record { loaded = false }) two-IsValid

labels-labels_example :
    (codes "m\"" ≡ codes "m\"") × (codes "b" ≡ codes "b") × (codes "all" ≡ codes "all")
labels-labels_example =
    labels-labels (codes "m\"") (codes "b") (codes "all") (codes "m\"") (codes "b") (codes "all")
      refl

leb_trans : (a b c : ℕ) → leb a b ≡ true → leb b c ≡ true → leb a c ≡ true
leb_trans a b c h k = ground (arith, h, k)

-- times in milliseconds, with two bounds
abbrev two_times : Histogram ℕ
two_times = record { buckets = 1 ∷ 2 ∷ []; count = 2; sum = 6 }

observe_one_example :
    let h = observe_one 0 (λ a b. a + b) leb (λ a. a) (2 ∷ 5 ∷ []) 4 two_times in
    (length h.buckets ≡ 2) × IsHistogram (2 ∷ 5 ∷ []) h
observe_one_example =
    observe_one-IsHistogram 0 (λ a b. a + b) leb (λ a. a) (2 ∷ 5 ∷ []) 4 two_times
      (λ a b c h k. leb_trans a b c h k) (refl, tt)
      (record { shape = inr refl; rising = (omega arith, (omega arith, omega arith)) })
      (omega arith)
