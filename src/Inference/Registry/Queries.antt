-- ===== src/Inference/Registry/Queries.antt =====
-- How the questions that a registry answers hang together: `hasBackend` and `hasModel` with
-- `resolve`.
use my_tiny_network_library.Base.{
  ◌≡◌, ◌≢◌, refl, sym, ap, ◌∙◌, subst, arith, Bool, true, false, ◌&&◌, List, [], ◌∷◌, ◌++◌, Option,
  Bytes, equal, All, is_some, inl, inr,
}
use my_tiny_network_library.Inference.Types.{BackendType, auto, same_backend, same_backend_iff}
use my_tiny_network_library.Inference.Registry.{
  Registration, ModelRegistry, any, has_model, has_backend, eligible, resolve, resolve_name,
}
use my_tiny_network_library.Inference.Registry.Routing.{Chosen, Resolution, resolve-Resolution}
use my_tiny_network_library.Inference.Registry.Inv.{IsValid, Backed}

module _ {Handle : Type 0} where
  -- a list with one element that passes, and one where none does
  any-there :
      (test : Registration Handle → Bool) (before after : List (Registration Handle))
      (r : Registration Handle)
      → test r ≡ true
      → any test (before ++ r ∷ after) ≡ true
  unfolding any
  any-there test [] after r h = ground arith
  any-there test (q ∷ before) after r h = ground (arith, any-there test before after r h)

  any-nowhere :
      (test : Registration Handle → Bool) (rs : List (Registration Handle))
      → All (λ q. test q ≡ false) rs
      → any test rs ≡ false
  unfolding any
  any-nowhere test [] h = refl
  any-nowhere test (q ∷ rs) h = ground (arith, any-nowhere test rs h.1, h.0)

  All-there :
      (P : Registration Handle → Type 0) (before after : List (Registration Handle))
      (r : Registration Handle)
      → All P (before ++ r ∷ after)
      → P r
  All-there P [] after r h = h.0
  All-there P (q ∷ before) after r h = All-there P before after r h.1

  any-cong :
      (test other : Registration Handle → Bool) (rs : List (Registration Handle))
      → ((r : Registration Handle) → test r ≡ other r)
      → any test rs ≡ any other rs
  unfolding any
  any-cong test other [] h = refl
  any-cong test other (q ∷ rs) h = ground (arith, any-cong test other rs h, h q)

  -- for a type that is asked for, the test of `hasBackend` is that of `resolve`
  asked :
      (name : Bytes) (backend : BackendType) (r : Registration Handle)
      → backend ≢ auto
      → (equal r.config.name name && same_backend r.config.backend backend && r.available)
        ≡ eligible name backend r
  unfolding eligible
  asked name backend r h = ground (arith, same_backend_iff backend auto)

  eligible-available :
      (name : Bytes) (backend : BackendType) (r : Registration Handle)
      → eligible name backend r ≡ true
      → r.available ≡ true
  unfolding eligible
  eligible-available name backend r h = ground arith

  eligible-name :
      (name : Bytes) (backend : BackendType) (r : Registration Handle)
      → eligible name backend r ≡ true
      → equal r.config.name name ≡ true
  unfolding eligible
  eligible-name name backend r h = ground arith

  any-Chosen :
      (test : Registration Handle → Bool) (name : Bytes) (backend : BackendType)
      (rs : List (Registration Handle)) (r : Registration Handle)
      → Chosen name backend rs r
      → test r ≡ true
      → any test rs ≡ true
  any-Chosen test name backend rs r chosen h =
      ap (any test) chosen.place ∙ any-there test chosen.before chosen.after r h

  Chosen-Backed :
      (name : Bytes) (backend : BackendType) (rs : List (Registration Handle))
      (r : Registration Handle)
      → All Backed rs
      → Chosen name backend rs r
      → is_some r.backend ≡ true
  Chosen-Backed name backend rs r h chosen =
      let (b, e) =
        All-there Backed chosen.before chosen.after r (subst (All Backed) chosen.place h)
          (eligible-available name backend r chosen.serves) in
      ap is_some e

  any-Resolution :
      (m : ModelRegistry Handle) (name : Bytes) (backend : BackendType) (found : Option Handle)
      → IsValid m
      → Resolution m name backend found
      → any (eligible name backend) m.registrations ≡ is_some found
  any-Resolution m name backend found h (inr (nowhere, e)) =
      any-nowhere _ m.registrations nowhere ∙ ap is_some (sym e)
  any-Resolution m name backend found h (inl (r, chosen, e)) =
      any-Chosen _ name backend m.registrations r chosen chosen.serves
      ∙ sym (ap is_some e ∙ Chosen-Backed name backend m.registrations r h.backed chosen)

  known-Resolution :
      (m : ModelRegistry Handle) (name : Bytes) (backend : BackendType) (found : Option Handle)
      → Resolution m name backend found
      → is_some found ≡ true
      → any (λ r. equal r.config.name name) m.registrations ≡ true
  known-Resolution m name backend found (inr (nowhere, e)) h = cc
  known-Resolution m name backend found (inl (r, chosen, e)) h =
      any-Chosen _ name backend m.registrations r chosen
        (eligible-name name backend r chosen.serves)

  -- In a valid registry `hasBackend`, asked for a TensorFlow or TensorRT backend, is true exactly
  -- when `resolve` hands out a backend for the same model and type.
  pub has_backend-resolve :
      (m : ModelRegistry Handle) (name : Bytes) (backend : BackendType)
      → IsValid m
      → backend ≢ auto
      → has_backend m name backend ≡ is_some (resolve m name backend).1
  unfolding has_backend
  has_backend-resolve m name backend h k =
      any-cong _ (eligible (resolve_name m name) backend) m.registrations
        (λ r. asked (resolve_name m name) backend r k)
      ∙ any-Resolution m (resolve_name m name) backend (resolve m name backend).1 h
          (resolve-Resolution m name backend)

  -- `resolve` hands out a backend only for a model that `hasModel` knows.
  pub resolve-has_model :
      (m : ModelRegistry Handle) (name : Bytes) (requested : BackendType)
      → is_some (resolve m name requested).1 ≡ true
      → has_model m name ≡ true
  unfolding has_model
  resolve-has_model m name requested h =
      known-Resolution m (resolve_name m name) requested (resolve m name requested).1
        (resolve-Resolution m name requested) h
