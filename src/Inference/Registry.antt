-- ===== src/Inference/Registry.antt =====
-- src/inference/ModelRegistry.h and ModelRegistry.cc: which backends serve which model. Reading the
-- configuration file is in Load.
pub mod Routing
pub mod Inv
pub mod Queries
pub mod Entry
pub mod Load
use my_tiny_network_library.Base.{
  ℕ, suc, ℤ, less, Bool, true, false, not, ◌&&◌, ◌||◌, List, [], ◌∷◌, ◌++◌, Option, none, some,
  if◌then◌else◌, Bytes, codes, equal, is_empty, ltb,
}
use my_tiny_network_library.Inference.Types.{
  BackendType, auto, ModelConfig, same_backend, backend_type_name, InferenceBackend,
}

pub record Registration (Handle : Type 0) : Type 0 where
  pub config : ModelConfig
  pub backend : Option Handle
  pub priority : ℤ
  pub available : Bool
  pub load_error : Bytes

pub record ModelRegistry (Handle : Type 0) : Type 0 where
  pub default_model : Bytes
  pub registrations : List (Registration Handle)

-- are these a model of the same name for the same type of backend?
unfoldable pub same_key : ModelConfig → ModelConfig → Bool
same_key a b = equal a.name b.name && same_backend a.backend b.backend

module _ {Handle : Type 0} where
  -- the registry of a new object
  unfoldable pub init : ModelRegistry Handle
  init = record { default_model = []; registrations = [] }

  unfoldable pub duplicate : ModelConfig → List (Registration Handle) → Bool
  duplicate config [] = false
  duplicate config (r ∷ rs) = if same_key r.config config then true else duplicate config rs

  -- the registry with one more registration
  unfoldable pub registered :
      ModelConfig → Option Handle → ℤ → ModelRegistry Handle → ModelRegistry Handle
  registered config backend priority m = record m {
    registrations =
        m.registrations
        ++ record {
          config = config;
          backend = backend;
          priority = priority;
          available = false;
          load_error = [];
        }
          ∷ [];
    default_model = if is_empty m.default_model then config.name else m.default_model;
  }

  -- The text of the error, or `none` for true; with the registry afterwards.
  unfoldable pub add :
      ModelConfig → Option Handle → ℤ → ModelRegistry Handle → Option Bytes × ModelRegistry Handle
  add config backend priority m =
      if duplicate config m.registrations
      then (some (codes "duplicate model/backend registration"), m)
      else (none, registered config backend priority m)

  -- the name that "default" stands for
  unfoldable pub resolve_name : ModelRegistry Handle → Bytes → Bytes
  resolve_name m name = if equal name (codes "default") then m.default_model else name

  -- the two `continue` lines of `resolve`
  unfoldable pub eligible : Bytes → BackendType → Registration Handle → Bool
  eligible name requested r =
      r.available
      && equal r.config.name name
      && (same_backend requested auto || same_backend r.config.backend requested)

  -- does this registration take the place of the one selected so far?
  unfoldable pub outranks : Registration Handle → Option (Registration Handle) → Bool
  outranks r none = true
  outranks r (some best) = less best.priority r.priority

  unfoldable pub select :
      Bytes
      → BackendType
      → Option (Registration Handle)
      → List (Registration Handle)
      → Option (Registration Handle)
  select name requested best [] = best
  select name requested best (r ∷ rs) =
      select name requested (if eligible name requested r && outranks r best then some r else best)
        rs

  abbrev pub backend_of : Option (Registration Handle) → Option Handle
  backend_of none = none
  backend_of (some r) = r.backend

  -- `*modelName` afterwards, and the backend
  unfoldable pub resolve : ModelRegistry Handle → Bytes → BackendType → Bytes × Option Handle
  resolve m name requested =
      let name' = resolve_name m name in
      (name', backend_of (select name' requested none m.registrations))

  unfoldable pub any : (Registration Handle → Bool) → List (Registration Handle) → Bool
  any test [] = false
  any test (r ∷ rs) = if test r then true else any test rs

  unfoldable pub has_model : ModelRegistry Handle → Bytes → Bool
  has_model m name = any (λ r. equal r.config.name (resolve_name m name)) m.registrations

  unfoldable pub has_backend : ModelRegistry Handle → Bytes → BackendType → Bool
  has_backend m name backend =
      any
        (λ r.
          equal r.config.name (resolve_name m name)
          && same_backend r.config.backend backend
          && r.available)
        m.registrations

  unfoldable pub available_count : List (Registration Handle) → ℕ
  available_count [] = 0
  available_count (r ∷ rs) = let rest = available_count rs in if r.available then suc rest else rest

module _ {World Handle Real : Type 0} (ops : InferenceBackend World Handle Real) where
  -- `load(…) && warmup(…)`: the second is called only after the first returned true
  unfoldable pub bring_up : Handle → ModelConfig → World → Bool × Bytes × World
  bring_up h config w =
      let (loaded, text, w1) = ops.load h config [] w in
      if loaded then ops.warmup h text w1 else (false, text, w1)

  -- one registration of the loop in `initialize`
  unfoldable pub initialize_one : Registration Handle → World → Registration Handle × Bytes × World
  initialize_one r w = elim r.backend [
    | none ↦ (r, [], w)
    | some h ↦
        let (fine, text, w') = bring_up h r.config w in
        let reason = if is_empty text then codes "backend initialization failed" else text in
        if fine then (record r { available = true }, [], w') else (
          record r { available = false; load_error = reason },
          r.config.name
              ++ codes "/"
              ++ backend_type_name r.config.backend
              ++ codes ": "
              ++ reason
              ++ codes "; ",
          w',
        )
  ]

  -- the registrations, the text of `failures`, and the backends afterwards
  unfoldable pub initialize_all :
      List (Registration Handle) → World → List (Registration Handle) × Bytes × World
  initialize_all [] w = ([], [], w)
  initialize_all (r ∷ rs) w =
      let (r', text, w1) = initialize_one r w in
      let (rs', texts, w2) = initialize_all rs w1 in (r' ∷ rs', text ++ texts, w2)

  -- how many registrations with a backend came up: the variable `available`
  unfoldable pub brought_up : List (Registration Handle) → ℕ
  brought_up [] = 0
  brought_up (r ∷ rs) =
      let rest = brought_up rs in
      elim r.backend [ none ↦ rest | some _ ↦ if r.available then suc rest else rest ]

  unfoldable pub initialize :
      ModelRegistry Handle → World → Option Bytes × ModelRegistry Handle × World
  initialize m w =
      let (rs, failures, w') = initialize_all m.registrations w in
      let m' = record m { registrations = rs } in
      if ltb 0 (brought_up rs)
      then (none, m', w')
      else (some (codes "no inference backend is available: " ++ failures), m', w')

  unfoldable pub healthy_count : List (Registration Handle) → World → ℕ
  healthy_count [] w = 0
  healthy_count (r ∷ rs) w =
      let rest = healthy_count rs w in
      elim r.backend [
        | none ↦ rest
        | some h ↦ if r.available && ops.healthy h w then suc rest else rest
      ]
