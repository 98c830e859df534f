-- ===== src/Inference/Registry/Routing.antt =====
-- What `ModelRegistry::resolve` promises: of the registrations that can serve a request, the one
-- with the highest priority, and of several such ones the first.
use my_tiny_network_library.Base.{
  ◌≡◌, refl, sym, ap, ◌∙◌, subst, arith, Bool, true, false, ◌&&◌, List, [], ◌∷◌, ◌++◌, append_assoc,
  append-nil, Option, none, some, if◌then◌else◌, Bytes, less, less_trans, less_mixed, All, All-map,
  All-append, inl, inr, ◌⊎◌,
}
use my_tiny_network_library.Inference.Types.{BackendType}
use my_tiny_network_library.Inference.Registry.{
  Registration, ModelRegistry, eligible, outranks, select, resolve, resolve_name, backend_of,
}

-- The registration that a request for this model and backend is to get.
pub record Chosen {Handle : Type 0} (name : Bytes) (requested : BackendType)
    (rs : List (Registration Handle)) (r : Registration Handle) : Type 0 where
  pub before : List (Registration Handle)
  pub after : List (Registration Handle)
  pub place : rs ≡ before ++ r ∷ after
  pub serves : eligible name requested r ≡ true
  pub above : All (λ q. eligible name requested q ≡ true → less q.priority r.priority ≡ true) before
  pub not_below :
      All (λ q. eligible name requested q ≡ true → less r.priority q.priority ≡ false) after

-- what the loop has selected among the registrations it has seen
abbrev pub Best :
    {Handle : Type 0}
    → Bytes
    → BackendType
    → List (Registration Handle)
    → Option (Registration Handle)
    → Type 0
Best name requested rs none = All (λ q. eligible name requested q ≡ false) rs
Best name requested rs (some r) = Chosen name requested rs r

module _ {Handle : Type 0} (name : Bytes) (requested : BackendType) where
  passed_over-Best :
      (rs : List (Registration Handle)) (r : Registration Handle)
      (best : Option (Registration Handle))
      → Best name requested rs best
      → (eligible name requested r && outranks r best) ≡ false
      → Best name requested (rs ++ r ∷ []) best
  unfolding outranks
  passed_over-Best rs r none h e = All-append _ rs (r ∷ []) h (ground arith, tt)
  passed_over-Best rs r (some b) h e = record {
    before = h.before;
    after = h.after ++ r ∷ [];
    place = ap (λ l. l ++ r ∷ []) h.place ∙ append_assoc h.before (b ∷ h.after) (r ∷ []);
    serves = h.serves;
    above = h.above;
    not_below = All-append _ h.after (r ∷ []) h.not_below ((λ q. ground arith), tt);
  }

  taken-Best :
      (rs : List (Registration Handle)) (r : Registration Handle)
      (best : Option (Registration Handle))
      → Best name requested rs best
      → (eligible name requested r && outranks r best) ≡ true
      → Chosen name requested (rs ++ r ∷ []) r
  unfolding outranks
  taken-Best rs r none h e = record {
    before = rs;
    after = [];
    place = refl;
    serves = ground arith;
    above = All-map _ _ (λ q k m. cc) rs h;
    not_below = tt;
  }
  taken-Best rs r (some b) h e = record {
    before = rs;
    after = [];
    place = refl;
    serves = ground arith;
    above = subst (All Less) (sym h.place) (
        All-append Less h.before (b ∷ h.after)
          (All-map _ Less (λ q k m. less_trans q.priority b.priority r.priority (k m) lower)
            h.before h.above)
          (
            (λ _. lower),
            All-map _ Less (λ q k m. less_mixed b.priority q.priority r.priority (k m) lower)
                h.after h.not_below,
          ));
    not_below = tt;
  }
    where
      Less : Registration Handle → Type 0
      Less q = eligible name requested q ≡ true → less q.priority r.priority ≡ true

      lower : less b.priority r.priority ≡ true
      lower = ground arith

  step-Best :
      (rs : List (Registration Handle)) (r : Registration Handle)
      (best : Option (Registration Handle))
      → Best name requested rs best
      → Best name requested
          (rs ++ r ∷ [])
          (if eligible name requested r && outranks r best then some r else best)
  step-Best rs r best h = go _ refl
    where
      go :
          (wins : Bool)
          → (eligible name requested r && outranks r best) ≡ wins
          → Best name requested (rs ++ r ∷ []) (if wins then some r else best)
      go true e = taken-Best rs r best h e
      go false e = passed_over-Best rs r best h e

  select-Best :
      (seen : List (Registration Handle)) (best : Option (Registration Handle))
      (rs : List (Registration Handle))
      → Best name requested seen best
      → Best name requested (seen ++ rs) (select name requested best rs)
  unfolding select
  select-Best seen best [] h = subst (λ l. Best name requested l best) (sym (append-nil seen)) h
  select-Best seen best (r ∷ rs) h =
      subst (λ l. Best name requested l (select name requested best (r ∷ rs)))
        (append_assoc seen (r ∷ []) rs)
        (select-Best (seen ++ r ∷ [])
          (if eligible name requested r && outranks r best then some r else best) rs
          (step-Best seen r best h))

-- What a lookup comes to: the backend of the chosen registration, or none if nothing serves.
abbrev pub Resolution :
    {Handle : Type 0} → ModelRegistry Handle → Bytes → BackendType → Option Handle → Type 0
Resolution {Handle} m name requested backend =
    ((r : Registration Handle) × Chosen name requested m.registrations r × (backend ≡ r.backend))
    ⊎ (All (λ q. eligible name requested q ≡ false) m.registrations × (backend ≡ none))

module _ {Handle : Type 0} where
  -- `resolve` hands out the backend of the first registration with the highest priority among those
  -- that are available, serve the model that the name stands for and are of the requested backend
  -- type, if one is requested; it hands out none if there is no such registration.
  pub resolve-Resolution :
      (m : ModelRegistry Handle) (name : Bytes) (requested : BackendType)
      → Resolution m (resolve_name m name) requested (resolve m name requested).1
  unfolding resolve
  resolve-Resolution m name requested =
      go _ (select-Best (resolve_name m name) requested [] none m.registrations tt)
    where
      go :
          (best : Option (Registration Handle))
          → Best (resolve_name m name) requested m.registrations best
          → Resolution m (resolve_name m name) requested (backend_of best)
      go none h = inr (h, refl)
      go (some r) h = inl (r, h, refl)
