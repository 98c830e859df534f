-- ===== src/Inference/Registry/Inv.antt =====
-- What holds of a registry between its operations: no model is registered twice for a backend
-- type, and a registration that is available has a backend.
use my_tiny_network_library.Base.{
  ◌≡◌, refl, arith, Bool, true, false, List, [], ◌∷◌, ◌++◌, Option, none, some, ◌∙◌, ℤ, All,
  All-append, ap, ap₂, sym, subst,
}
use my_tiny_network_library.Inference.Types.{ModelConfig, InferenceBackend}
use my_tiny_network_library.Inference.Registry.{
  Registration, ModelRegistry, same_key, duplicate, registered, add, init, initialize,
  initialize_all, initialize_one,
}

-- no configuration has the key of a later one
unfoldable pub Distinct : List ModelConfig → Type 0
Distinct [] = Unit
Distinct (c ∷ cs) = All (λ d. same_key c d ≡ false) cs × Distinct cs

module _ {Handle : Type 0} where
  -- an available registration has a backend
  abbrev pub Backed : Registration Handle → Type 0
  Backed r = r.available ≡ true → (h : Handle) × (r.backend ≡ some h)

  abbrev pub configs : List (Registration Handle) → List ModelConfig
  configs [] = []
  configs (r ∷ rs) = r.config ∷ configs rs

  pub record IsValid (m : ModelRegistry Handle) : Type 0 where
    pub distinct : Distinct (configs m.registrations)
    pub backed : All Backed m.registrations

  pub init-IsValid : IsValid init
  unfolding init Distinct
  init-IsValid = record { distinct = tt; backed = tt }

  configs-append :
      (rs : List (Registration Handle)) (r : Registration Handle)
      → configs (rs ++ r ∷ []) ≡ configs rs ++ r.config ∷ []
  configs-append [] r = refl
  configs-append (q ∷ rs) r = ap (◌∷◌ q.config) (configs-append rs r)

  Distinct-append :
      (rs : List (Registration Handle)) (config : ModelConfig)
      → duplicate config rs ≡ false
      → Distinct (configs rs)
      → Distinct (configs rs ++ config ∷ [])
  unfolding duplicate Distinct
  Distinct-append [] config h d = (tt, tt)
  Distinct-append (q ∷ rs) config h d = (
    All-append _ (configs rs) (config ∷ []) d.0 (ground arith, tt),
    Distinct-append rs config (ground arith) d.1,
  )

  registered-IsValid :
      (config : ModelConfig) (backend : Option Handle) (priority : ℤ) (m : ModelRegistry Handle)
      → IsValid m
      → duplicate config m.registrations ≡ false
      → IsValid (registered config backend priority m)
  unfolding registered
  registered-IsValid config backend priority m h e = record {
    distinct =
        subst Distinct (sym (configs-append m.registrations _))
          (Distinct-append m.registrations config e h.distinct);
    backed = All-append Backed m.registrations _ h.backed ((λ no. cc), tt);
  }

  add-refused :
      (config : ModelConfig) (backend : Option Handle) (priority : ℤ) (m : ModelRegistry Handle)
      → duplicate config m.registrations ≡ true
      → (add config backend priority m).1 ≡ m
  unfolding add
  add-refused config backend priority m e = ground arith

  add-registered :
      (config : ModelConfig) (backend : Option Handle) (priority : ℤ) (m : ModelRegistry Handle)
      → duplicate config m.registrations ≡ false
      → (add config backend priority m).1 ≡ registered config backend priority m
  unfolding add
  add-registered config backend priority m e = ground arith

  -- `add` keeps a valid registry valid, also where it refuses.
  pub add-IsValid :
      (config : ModelConfig) (backend : Option Handle) (priority : ℤ) (m : ModelRegistry Handle)
      → IsValid m
      → IsValid (add config backend priority m).1
  add-IsValid config backend priority m h = go _ refl
    where
      go :
          (twice : Bool)
          → duplicate config m.registrations ≡ twice
          → IsValid (add config backend priority m).1
      go true e = subst IsValid (sym (add-refused config backend priority m e)) h
      go false e =
          subst IsValid (sym (add-registered config backend priority m e))
            (registered-IsValid config backend priority m h e)

module _ {World Handle Real : Type 0} (ops : InferenceBackend World Handle Real) where
  initialize_one-config :
      (r : Registration Handle) (w : World) → (initialize_one ops r w).0.config ≡ r.config
  unfolding initialize_one
  initialize_one-config r w = ground arith

  initialize_one-backend :
      (r : Registration Handle) (w : World) → (initialize_one ops r w).0.backend ≡ r.backend
  unfolding initialize_one
  initialize_one-backend r w = ground arith

  initialize_one-none :
      (r : Registration Handle) (w : World) → r.backend ≡ none → (initialize_one ops r w).0 ≡ r
  unfolding initialize_one
  initialize_one-none r w e = ground arith

  initialize_one-Backed :
      (r : Registration Handle) (w : World) → Backed r → Backed (initialize_one ops r w).0
  unfolding initialize_one
  initialize_one-Backed r w h = go _ refl
    where
      go : (o : Option Handle) → r.backend ≡ o → Backed (initialize_one ops r w).0
      go none e = subst Backed (sym (initialize_one-none r w e)) h
      go (some b) e = λ _. (b, initialize_one-backend r w ∙ e)

  initialize_all-configs :
      (rs : List (Registration Handle)) (w : World)
      → configs (initialize_all ops rs w).0 ≡ configs rs
  unfolding initialize_all
  initialize_all-configs [] w = refl
  initialize_all-configs (r ∷ rs) w =
      ap₂ ◌∷◌ (initialize_one-config r w) (initialize_all-configs rs (initialize_one ops r w).2)

  initialize_all-Backed :
      (rs : List (Registration Handle)) (w : World)
      → All Backed rs
      → All Backed (initialize_all ops rs w).0
  unfolding initialize_all
  initialize_all-Backed [] w h = tt
  initialize_all-Backed (r ∷ rs) w h =
      (initialize_one-Backed r w h.0, initialize_all-Backed rs (initialize_one ops r w).2 h.1)

  initialize-registry :
      (m : ModelRegistry Handle) (w : World)
      → (initialize ops m w).1
        ≡ record m { registrations = (initialize_all ops m.registrations w).0 }
  unfolding initialize
  initialize-registry m w = ground arith

  -- `initialize` keeps a valid registry valid, whatever the backends answer.
  pub initialize-IsValid :
      (m : ModelRegistry Handle) (w : World) → IsValid m → IsValid (initialize ops m w).1
  initialize-IsValid m w h = subst IsValid (sym (initialize-registry m w)) (record {
    distinct = subst Distinct (sym (initialize_all-configs m.registrations w)) h.distinct;
    backed = initialize_all-Backed m.registrations w h.backed;
  })
