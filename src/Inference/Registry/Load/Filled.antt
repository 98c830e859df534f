-- ===== src/Inference/Registry/Load/Filled.antt =====
-- Every entry that is registered keeps the registry whole.
use my_tiny_network_library.Base.{
  ℤ, ◌≡◌, ◌≢◌, ◌⊎◌, inl, inr, refl, sym, ap, subst, Bool, true, false, List, [], ◌∷◌, ◌++◌, Option,
  none, some, Bytes, codes, All, All-append,
}
use my_tiny_network_library.Inference.Types.{ModelConfig}
use my_tiny_network_library.Inference.Registry.{
  Registration, ModelRegistry, add, duplicate, registered, has_model,
}
use my_tiny_network_library.Inference.Registry.Inv.{IsValid, add-IsValid, Distinct, Backed, configs}
use my_tiny_network_library.Inference.Registry.Entry.{Build}
use my_tiny_network_library.Inference.Registry.Load.{explained, note_last, add_entry}
use my_tiny_network_library.Inference.Registry.Entry.Models.{IsModel}

module _ {Handle : Type 0} where
  -- The registration has an object, or says why it has none; it is not initialised yet.
  pub record IsEntry (r : Registration Handle) : Type 0 where
    pub model : IsModel r.config
    pub not_yet : r.available ≡ false
    pub explained :
        ((h : Handle) × (r.backend ≡ some h))
        ⊎ ((r.backend ≡ none) × (r.load_error ≡ codes "backend was disabled at build time"))

  -- what holds of the registry at every turn of the loop
  pub record Filled (m : ModelRegistry Handle) : Type 0 where
    pub valid : IsValid m
    pub entries : All IsEntry m.registrations

  -- what holds when the file was read
  pub record Loaded (m : ModelRegistry Handle) : Type 0 where
    pub filled : Filled m
    pub some_entry : m.registrations ≢ []
    pub has_default : has_model m (codes "default") ≡ true

module _ {Handle : Type 0} where
  note_last-append :
      (text : Bytes) (rs : List (Registration Handle)) (r : Registration Handle)
      → note_last text (rs ++ r ∷ []) ≡ rs ++ record r { load_error = text } ∷ []
  note_last-append text [] r = refl
  note_last-append text (q ∷ []) r = refl
  note_last-append text (q ∷ p ∷ rs) r = ap (◌∷◌ q) (note_last-append text (p ∷ rs) r)

  configs-note_last :
      (text : Bytes) (rs : List (Registration Handle)) → configs (note_last text rs) ≡ configs rs
  configs-note_last text [] = refl
  configs-note_last text (r ∷ []) = refl
  configs-note_last text (r ∷ q ∷ rs) = ap (◌∷◌ r.config) (configs-note_last text (q ∷ rs))

  note_last-Backed :
      (text : Bytes) (rs : List (Registration Handle))
      → All Backed rs
      → All Backed (note_last text rs)
  note_last-Backed text [] h = tt
  note_last-Backed text (r ∷ []) h = (h.0, tt)
  note_last-Backed text (r ∷ q ∷ rs) h = (h.0, note_last-Backed text (q ∷ rs) h.1)

  add-new :
      (config : ModelConfig) (backend : Option Handle) (priority : ℤ) (m : ModelRegistry Handle)
      → duplicate config m.registrations ≡ false
      → add config backend priority m ≡ (none, registered config backend priority m)
  unfolding add
  add-new config backend priority m e = rw e refl

  add-twice :
      (config : ModelConfig) (backend : Option Handle) (priority : ℤ) (m : ModelRegistry Handle)
      → duplicate config m.registrations ≡ true
      → add config backend priority m ≡ (some (codes "duplicate model/backend registration"), m)
  unfolding add
  add-twice config backend priority m e = rw e refl

  -- one entry is registered, or the registry stays as it was
  explained-Filled :
      (config : ModelConfig) (backend : Option Handle) (priority : ℤ) (m : ModelRegistry Handle)
      → IsModel config
      → Filled m
      → Filled (explained backend (add config backend priority m)).1
  unfolding registered
  explained-Filled config backend priority m c h =
      go _ refl backend (add-IsValid config backend priority m h.valid)
    where
      entry : Option Handle → Bytes → Registration Handle
      entry backend text = record {
        config = config;
        backend = backend;
        priority = priority;
        available = false;
        load_error = text;
      }

      go :
          (twice : Bool)
          → duplicate config m.registrations ≡ twice
          → (backend : Option Handle) → IsValid (add config backend priority m).1
          → Filled (explained backend (add config backend priority m)).1
      go true e none v =
          subst (λ r. Filled (explained none r).1) (sym (add-twice config none priority m e)) h
      go true e (some handle) v =
          subst (λ r. Filled r.1) (sym (add-twice config (some handle) priority m e)) h
      go false e (some handle) v =
          subst (λ r. Filled (r.1)) (sym (add-new config (some handle) priority m e))
            (record {
              valid = subst (λ r. IsValid (r.1)) (add-new config (some handle) priority m e) v;
              entries =
                  All-append _ m.registrations _ h.entries
                    (record { model = c; not_yet = refl; explained = inl (handle, refl) }, tt);
            })
      go false e none v =
          let w = subst (λ r. IsValid (r.1)) (add-new config none priority m e) v in
          subst (λ r. Filled (explained none r).1) (sym (add-new config none priority m e))
            (record {
              valid = record {
                distinct = subst Distinct (sym (configs-note_last _ _)) w.distinct;
                backed = note_last-Backed _ _ w.backed;
              };
              entries = subst (All IsEntry) (sym (note_last-append _ m.registrations _)) (
                  All-append _ m.registrations _ h.entries
                    (record { model = c; not_yet = refl; explained = inr (refl, refl) }, tt));
            })

  pub add_entry-Filled :
      (build : Build Handle) (config : ModelConfig) (priority : ℤ) (m : ModelRegistry Handle)
      → IsModel config
      → Filled m
      → Filled (add_entry build (config, priority) m).1
  unfolding add_entry
  add_entry-Filled build config priority m c h = explained-Filled config _ priority m c h
