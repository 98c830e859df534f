-- ===== src/Inference/Registry/Load.antt =====
-- `loadFromFile` of src/inference/ModelRegistry.cc. The file is the text that the stream gives, or
-- none where it does not open.
pub mod Filled
pub mod Loaded
mod Tests
use my_tiny_network_library.Base.{
  ℕ, ℤ, pos, Bool, true, false, not, ◌&&◌, ◌||◌, List, [], ◌∷◌, ◌++◌, Option, none, some,
  if◌then◌else◌, Bytes, codes, is_empty, is_some, length, ◌==◌,
}
use my_tiny_network_library.Inference.Types.{
  BackendType, auto, tensor_flow, tensor_rt, ModelConfig, parse_backend_type,
}
use my_tiny_network_library.Inference.Registry.{Registration, ModelRegistry, add, has_model}
use my_tiny_network_library.Inference.Registry.Entry.{
  Thrown, ◌>>=◌, ◌>>◌, pure, Reader, text_of, shaped, Build, directory, directory_of, absolute_path,
  made, create_backend, definite, in_directory, complete, at, text_at, value_or, disabled,
  read_config, read_entry, value, threw,
}

module _ {Handle : Type 0} where
  -- `registrations_.clear()`
  abbrev pub cleared : ModelRegistry Handle → ModelRegistry Handle
  cleared m = record m { registrations = [] }

  -- `registrations_.back().loadError = text`
  abbrev pub note_last : Bytes → List (Registration Handle) → List (Registration Handle)
  note_last text [] = []
  note_last text (r ∷ []) = record r { load_error = text } ∷ []
  note_last text (r ∷ q ∷ rs) = r ∷ note_last text (q ∷ rs)

  -- A registration without an object says why it has none.
  abbrev pub explained :
      Option Handle → Option Bytes × ModelRegistry Handle → Option Bytes × ModelRegistry Handle
  explained (some handle) result = result
  explained none (some error, m) = (some error, m)
  explained none (none, m) = (
    none,
    record m {
      registrations = note_last (codes "backend was disabled at build time") m.registrations;
    },
  )

  unfoldable pub add_entry :
      Build Handle → ModelConfig × ℤ → ModelRegistry Handle → Option Bytes × ModelRegistry Handle
  add_entry build (config, priority) m =
      let backend = create_backend build (length m.registrations) config.backend in
      explained backend (add config backend priority m)

  -- one turn of the loop, with the text of an error, or `none`
  abbrev pub load_entry :
      Build Handle
      → Thrown (Option (ModelConfig × ℤ))
      → ModelRegistry Handle
      → Option Bytes × ModelRegistry Handle
  load_entry build (threw what) m = (some (codes "invalid model entry: " ++ what), cleared m)
  load_entry build (value none) m = (none, m)
  load_entry build (value (some entry)) m = add_entry build entry m

  abbrev pub or_rest :
      (ModelRegistry Handle → Option Bytes × ModelRegistry Handle)
      → Option Bytes × ModelRegistry Handle
      → Option Bytes × ModelRegistry Handle
  or_rest rest (some text, m) = (some text, m)
  or_rest rest (none, m) = rest m

  -- the loop over the entries
  unfoldable pub load_entries :
      {J : Type 0}
      → Reader J
      → Build Handle
      → Bytes
      → List J
      → ModelRegistry Handle
      → Option Bytes × ModelRegistry Handle
  load_entries json build base [] m = (none, m)
  load_entries json build base (item ∷ items) m =
      or_rest (load_entries json build base items) (load_entry build (read_entry json base item) m)

  abbrev pub none_registered : List (Registration Handle) → Bool
  none_registered [] = true
  none_registered (r ∷ rs) = false

  -- the tests behind the loop
  abbrev pub checked : Option Bytes × ModelRegistry Handle → Option Bytes × ModelRegistry Handle
  checked (some text, m) = (some text, m)
  checked (none, m) =
      if none_registered m.registrations
      then (some (codes "model registry contains no enabled entries"), m)
      else if not (has_model m m.default_model)
      then (some (codes "default_model does not reference an enabled model"), cleared m)
      else (none, m)

module _ {J Handle : Type 0} (json : Reader J) (build : Build Handle) where
  -- the name of the default model and the entries
  unfoldable pub parts : J → Thrown (Bytes × List J)
  parts document = do
    shaped (if json.is_object document then some document else none)
    default_model ← shaped (json.find (codes "default_model") document)
    name ← shaped (text_of (json.as_text default_model))
    models ← shaped (json.find (codes "models") document)
    items ← shaped (json.elements models)
    pure (name, items)

  abbrev pub load_document :
      Bytes → Thrown (Bytes × List J) → ModelRegistry Handle → Option Bytes × ModelRegistry Handle
  load_document path (threw what) m = (some what, m)
  load_document path (value (name, items)) m = checked (
      load_entries json build (directory_of path) items
        (record { default_model = name; registrations = [] }))

  abbrev pub load_text :
      Bytes → Thrown J → ModelRegistry Handle → Option Bytes × ModelRegistry Handle
  load_text path (threw what) m = (some (codes "invalid model registry JSON: " ++ what), m)
  load_text path (value document) m = load_document path (parts document) m

  -- The text of an error, or `none` for true.
  unfoldable pub load_from_file :
      Bytes → Option Bytes → ModelRegistry Handle → Option Bytes × ModelRegistry Handle
  load_from_file path none m = (some (codes "cannot open model registry config: " ++ path), m)
  load_from_file path (some text) m = load_text path (json.parse text) m
