-- ===== src/Inference/Registry/Entry.antt =====
-- One entry of the file that `loadFromFile` of src/inference/ModelRegistry.cc reads. What nlohmann::json
-- does with a document is an argument, and so is what the build has.
pub mod Models
use my_tiny_network_library.Base.{
  ℕ, ℤ, pos, Bool, true, false, not, ◌&&◌, ◌||◌, List, [], ◌∷◌, ◌++◌, Option, none, some,
  if◌then◌else◌, Bytes, codes, is_empty, is_some, length, ◌==◌,
}
use my_tiny_network_library.Inference.Types.{
  BackendType, auto, tensor_flow, tensor_rt, ModelConfig, parse_backend_type,
}

-- the value of an expression, or the text of the exception that it throws
pub data Thrown (A : Type 0) : Type 0 where
  value : A → Thrown A
  threw : Bytes → Thrown A

infixl 5 ◌>>=◌ ◌>>◌
unfoldable pub ◌>>=◌ : {A B : Type 0} → Thrown A → (A → Thrown B) → Thrown B
value a >>= k = k a
threw what >>= k = threw what

abbrev pub ◌>>◌ : {A B : Type 0} → Thrown A → Thrown B → Thrown B
m >> k = m >>= λ _. k

abbrev pub pure : {A : Type 0} → A → Thrown A
pure = value

-- `find` is `contains` with `[]` behind it; `missing` is what `at` throws. `as_text` throws where
-- `is_string` is false, and `elements` is none where `is_array` is.
pub record Reader (J : Type 0) : Type 0 where
  pub parse : Bytes → Thrown J
  pub is_object : J → Bool
  pub find : Bytes → J → Option J
  pub missing : Bytes → J → Bytes
  pub elements : J → Option (List J)
  pub as_text : J → Thrown Bytes
  pub as_flag : J → Thrown Bool
  pub as_integer : J → Thrown ℤ
  pub as_size : J → Thrown ℕ

abbrev pub text_of : Thrown Bytes → Option Bytes
text_of (value t) = some t
text_of (threw what) = none

-- the document must have this part
abbrev pub shaped : {A : Type 0} → Option A → Thrown A
shaped (some a) = value a
shaped none = threw (codes "registry requires string default_model and array models")

-- the backends that the build has, and the pointers that `new` gives
pub record Build (Handle : Type 0) : Type 0 where
  pub tensor_flow_backend : Option (ℕ → Handle)
  pub tensor_rt_backend : Option (ℕ → Handle)

-- what is behind the last slash of a path, with whether there is one, comes off
unfoldable pub directory : Bytes → Option Bytes
directory [] = none
directory (c ∷ cs) =
    let rest = directory cs in
    elim rest [ some d ↦ some (c ∷ d) | none ↦ if c == b'/' then some [] else none ]

unfoldable pub directory_of : Bytes → Bytes
directory_of path = elim (directory path) [ none ↦ codes "." | some d ↦ d ]

abbrev pub absolute_path : Bytes → Bool
absolute_path [] = false
absolute_path (c ∷ cs) = c == b'/'

-- the `n`-th object that is made
abbrev pub made : {Handle : Type 0} → ℕ → Option (ℕ → Handle) → Option Handle
made n none = none
made n (some new) = some (new n)

abbrev pub create_backend : {Handle : Type 0} → Build Handle → ℕ → BackendType → Option Handle
create_backend build n tensor_flow = made n build.tensor_flow_backend
create_backend build n tensor_rt = made n build.tensor_rt_backend
create_backend build n auto = none

-- the type of the backend, which must not be "auto"
abbrev pub definite : Option BackendType → Thrown BackendType
definite (some tensor_flow) = value tensor_flow
definite (some tensor_rt) = value tensor_rt
definite _ = threw (codes "backend must be tensorflow or tensorrt")

abbrev pub in_directory : Bytes → Bytes → Bytes
in_directory base path = if absolute_path path then path else base ++ (codes "/" ++ path)

-- the configuration, its parts being there
abbrev pub complete : Bytes → ModelConfig → Thrown ModelConfig
complete base config =
    if is_empty config.name || is_empty config.version || is_empty config.path
    then threw (codes "name, version, and path must not be empty")
    else value (record config { path = in_directory base config.path })

module _ {J : Type 0} (json : Reader J) where
  abbrev pub at : Bytes → J → Thrown J
  at key item = elim (json.find key item) [
    | none ↦ threw (json.missing key item)
    | some v ↦ value v
  ]

  abbrev pub text_at : Bytes → J → Thrown Bytes
  text_at key item = do v ← at key item; json.as_text v

  -- `item.value(key, fallback)`, of an object
  abbrev pub value_or : {A : Type 0} → (J → Thrown A) → Bytes → A → J → Thrown A
  value_or as_value key fallback item = elim (json.find key item) [
    | none ↦ value fallback
    | some v ↦ as_value v
  ]

  -- `item.contains("enabled") && !item["enabled"].get<bool>()`
  abbrev pub disabled : J → Thrown Bool
  disabled item = elim (json.find (codes "enabled") item) [
    | none ↦ value false
    | some v ↦ do enabled ← json.as_flag v; pure (not enabled)
  ]

  -- the model of an entry, and its priority
  unfoldable pub read_config : Bytes → J → Thrown (ModelConfig × ℤ)
  read_config base item = do
    name ← text_at (codes "name") item
    version ← text_at (codes "version") item
    path ← text_at (codes "path") item
    backend_name ← text_at (codes "backend") item
    backend ← definite (parse_backend_type backend_name)
    device_id ← value_or json.as_integer (codes "device_id") (pos 0) item
    max_concurrency ← value_or json.as_size (codes "max_concurrency") 1 item
    config ← complete base (record {
      name = name;
      version = version;
      path = path;
      backend = backend;
      device_id = device_id;
      max_concurrency = max_concurrency;
    })
    priority ← value_or json.as_integer (codes "priority") (pos 0) item
    pure (config, priority)

  -- no model for an entry that is not enabled
  unfoldable pub read_entry : Bytes → J → Thrown (Option (ModelConfig × ℤ))
  read_entry base item = do
    skip ← disabled item
    if skip then pure none else (do c ← read_config base item; pure (some c))
