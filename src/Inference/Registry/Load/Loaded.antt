-- ===== src/Inference/Registry/Load/Loaded.antt =====
-- What stands in a registry that was read from a file.
use my_tiny_network_library.Base.{
  ℤ, ◌≡◌, ◌≢◌, inl, inr, refl, ◌∙◌, Bool-cases, Bool, true, false, List, [], ◌∷◌, Option, none,
  some, Bytes, codes, equal,
}
use my_tiny_network_library.Inference.Types.{ModelConfig}
use my_tiny_network_library.Inference.Registry.{
  Registration, ModelRegistry, has_model, resolve_name,
}
use my_tiny_network_library.Inference.Registry.Inv.{IsValid, Distinct}
use my_tiny_network_library.Inference.Registry.Entry.{
  Thrown, value, threw, Reader, Build, directory_of, read_entry,
}
use my_tiny_network_library.Inference.Registry.Load.{
  cleared, load_entries, load_entry, or_rest, none_registered, checked, parts, load_document,
  load_text, load_from_file,
}
use my_tiny_network_library.Inference.Registry.Entry.Models.{read_entry-IsModel}
use my_tiny_network_library.Inference.Registry.Load.Filled.{Filled, Loaded, add_entry-Filled}

module _ {J Handle : Type 0} (json : Reader J) (build : Build Handle) where
  cleared-Filled : (m : ModelRegistry Handle) → Filled (cleared m)
  unfolding Distinct
  cleared-Filled m = record { valid = record { distinct = tt; backed = tt }; entries = tt }

  nonempty : (rs : List (Registration Handle)) → none_registered rs ≡ false → rs ≢ []
  nonempty [] h = absurd (cc h)
  nonempty (r ∷ rs) h = λ e. cc e

  -- "default" stands for the model that is tested for
  default_there :
      (m : ModelRegistry Handle) → has_model m (codes "default") ≡ has_model m m.default_model
  unfolding has_model resolve_name equal
  default_there m = elim (Bool-cases (equal m.default_model (codes "default"))) [
    | inl e ↦ rw e refl
    | inr e ↦ rw e refl
  ]

  abbrev Good : Option Bytes × ModelRegistry Handle → Type 0
  Good (error, m) = IsValid m × (error ≡ none → Loaded m)

  load_entry-Filled :
      (base : Bytes) (item : J) (t : Thrown (Option (ModelConfig × ℤ))) (m : ModelRegistry Handle)
      → read_entry json base item ≡ t
      → Filled m
      → Filled (load_entry build t m).1
  load_entry-Filled base item (threw what) m e h = cleared-Filled m
  load_entry-Filled base item (value none) m e h = h
  load_entry-Filled base item (value (some (config, priority))) m e h =
      add_entry-Filled build config priority m (read_entry-IsModel json base item config priority e)
        h

  or_rest-Filled :
      (rest : ModelRegistry Handle → Option Bytes × ModelRegistry Handle)
      (r : Option Bytes × ModelRegistry Handle)
      → ((m : ModelRegistry Handle) → Filled m → Filled (rest m).1)
      → Filled r.1
      → Filled (or_rest rest r).1
  or_rest-Filled rest (some text, m) k h = h
  or_rest-Filled rest (none, m) k h = k m h

  load_entries-Filled :
      (base : Bytes) (items : List J) (m : ModelRegistry Handle)
      → Filled m
      → Filled (load_entries json build base items m).1
  unfolding load_entries
  load_entries-Filled base [] m h = h
  load_entries-Filled base (item ∷ items) m h =
      or_rest-Filled (load_entries json build base items) _ (load_entries-Filled base items)
        (load_entry-Filled base item _ m refl h)

  -- the two tests find what is missing
  checked-Good : (r : Option Bytes × ModelRegistry Handle) → Filled r.1 → Good (checked r)
  checked-Good (some text, m) k = (k.valid, λ e. cc e)
  checked-Good (none, m) k = go _ _ refl refl
    where
      go :
          (empty known : Bool)
          → none_registered m.registrations ≡ empty
          → has_model m m.default_model ≡ known
          → Good (checked (none, m))
      go true known e f = rw e (k.valid, λ e. cc e)
      go false false e f = rw (e, f) ((cleared-Filled m).valid, λ e. cc e)
      go false true e f =
          rw (e, f)
            (
              k.valid,
              λ g. record {
                filled = k;
                some_entry = nonempty m.registrations e;
                has_default = default_there m ∙ f;
              },
            )

  -- `loadFromFile` leaves a valid registry, whether it fails or not. Where it returns true, there is a
  -- registration, each has a model with a name, a version, a path and a definite backend, and an
  -- object or the reason why it has none, and a request for the model "default" finds one.
  pub load_from_file-Loaded :
      (path : Bytes) (file : Option Bytes) (m : ModelRegistry Handle)
      → IsValid m
      → let (error, m') = load_from_file json build path file m in
        IsValid m' × (error ≡ none → Loaded m')
  unfolding load_from_file
  load_from_file-Loaded path none m h = (h, λ e. cc e)
  load_from_file-Loaded path (some text) m h = read (json.parse text)
    where
      shaped_like : (t : Thrown (Bytes × List J)) → Good (load_document json build path t m)
      shaped_like (threw what) = (h, λ e. cc e)
      shaped_like (value (name, items)) = checked-Good _ (
          load_entries-Filled (directory_of path) items _
            (cleared-Filled (record { default_model = name; registrations = [] })))

      read : (t : Thrown J) → Good (load_text json build path t m)
      read (threw what) = (h, λ e. cc e)
      read (value document) = shaped_like (parts json build document)
