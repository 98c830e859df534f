-- ===== src/Inference/Registry/Load/Tests.antt =====
-- A registry file with two entries, one of which is not enabled, and the theorem at it.
use my_tiny_network_library.Base.{
  ℕ, ◌≡◌, refl, pos, Bool, true, false, List, [], ◌∷◌, Option, none, some, if◌then◌else◌, Bytes,
  codes, equal,
}
use my_tiny_network_library.Inference.Types.{tensor_rt, parse_backend_type, same_backend}
use my_tiny_network_library.Inference.Registry.{
  ModelRegistry, add, duplicate, registered, same_key, has_model, resolve_name, any,
}
use my_tiny_network_library.Inference.Registry
use my_tiny_network_library.Inference.Registry.Inv.{IsValid, init-IsValid}
use my_tiny_network_library.Inference.Registry.Entry.{
  Thrown, value, threw, ◌>>=◌, Reader, Build, directory, directory_of, read_config, read_entry,
}
use my_tiny_network_library.Inference.Registry.Load.{add_entry, load_entries, parts, load_from_file}
use my_tiny_network_library.Inference.Registry.Load.Filled.{Loaded}
use my_tiny_network_library.Inference.Registry.Load.Loaded.{load_from_file-Loaded}

-- a document; an array and an object are chains
data Doc : Type 0 where
  word : Bytes → Doc
  flag : Bool → Doc
  nothing : Doc
  element : Doc → Doc → Doc
  field : Bytes → Doc → Doc → Doc

abbrev look : Bytes → Doc → Option Doc
look key (field name doc rest) =
    let later = look key rest in if equal key name then some doc else later
look key _ = none

abbrev listed : Doc → Option (List Doc)
listed nothing = some []
listed (element doc rest) = elim (listed rest) [ none ↦ none | some docs ↦ some (doc ∷ docs) ]
listed _ = none

abbrev is_field : Doc → Bool
is_field (field name doc rest) = true
is_field _ = false

abbrev worded : Doc → Thrown Bytes
worded (word text) = value text
worded _ = threw (codes "no text")

abbrev flagged : Doc → Thrown Bool
flagged (flag b) = value b
flagged _ = threw (codes "no flag")

abbrev model : Bytes → Bool → Doc
model name enabled = field (codes "enabled") (flag enabled) (
    field (codes "name") (word name) (
      field (codes "version") (word (codes "1")) (
        field (codes "path") (word (codes "yolo.engine"))
          (field (codes "backend") (word (codes "tensorrt")) nothing))))

abbrev file : Doc
file = field (codes "default_model") (word (codes "yolo")) (
    field (codes "models")
      (element (model (codes "old") false) (element (model (codes "yolo") true) nothing)) nothing)

abbrev reader : Reader Doc
reader = record {
  parse = λ text. value file;
  is_object = is_field;
  find = look;
  missing = λ key doc. codes "no key";
  elements = listed;
  as_text = worded;
  as_flag = flagged;
  as_integer = λ doc. threw (codes "no number");
  as_size = λ doc. threw (codes "no number");
}

-- a build with TensorRT
abbrev build : Build ℕ
build = record { tensor_flow_backend = none; tensor_rt_backend = some (λ n. n) }

abbrev path : Bytes
path = codes "etc/models.json"

abbrev read : Option Bytes × ModelRegistry ℕ
read = load_from_file reader build path (some []) Registry.init

-- the entry that is enabled, its path in the directory of the file
abbrev expected : ModelRegistry ℕ
expected = record {
  default_model = codes "yolo";
  registrations =
      record {
        config = record {
          name = codes "yolo";
          version = codes "1";
          path = codes "etc/yolo.engine";
          backend = tensor_rt;
          device_id = pos 0;
          max_concurrency = 1;
        };
        backend = some 0;
        priority = pos 0;
        available = false;
        load_error = [];
      }
      ∷ [];
}

one_loaded : read ≡ (none, expected)
unfolding load_from_file parts load_entries add_entry read_entry read_config ◌>>=◌ directory
    directory_of add duplicate registered same_key has_model resolve_name any equal
    parse_backend_type same_backend
one_loaded = refl

load_from_file-Loaded_example : IsValid read.1 × (read.0 ≡ none → Loaded read.1)
load_from_file-Loaded_example =
    load_from_file-Loaded reader build path (some []) Registry.init init-IsValid
